-- ===== src/Publishing.antt =====
-- The events app as a publisher: the rows of events/models.py and of `Category` in core/models.py,
-- the checks of events/services.py, its operations, and the palette slots of core/categories.py.
pub mod Model
pub mod Urls
pub mod Checks
pub mod Slots
pub mod Events
mod Console
mod Requests
mod Tests
