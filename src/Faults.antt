-- ===== src/Faults.antt =====
-- Groups of errors: core/error_groups.py. The text of an error is cleaned to a key, the errors with
-- one key are one row, and each source keeps at most 250 rows.
mod Key
mod Groups
mod Hourly
mod Tests
