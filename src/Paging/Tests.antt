-- ===== src/Paging/Tests.antt =====
-- The windows of page numbers at concrete inputs.
use takulife.Common.{◌≡◌, true, arith}
use takulife.Paging.{page_window, pager_context}
use takulife.Paging.Window.{IsWindow, page_window-IsWindow}
use takulife.Paging.Jumps.{lone_jump_back}

page_window-IsWindow_example : IsWindow 8 23 (page_window 8 23)
page_window-IsWindow_example = page_window-IsWindow 8 23 (omega arith) (omega arith)

lone_jump_back_example :
    ((pager_context 11 11).show_back ≡ true)
    × (page_window (pager_context 11 11).jump_back 11 ≡ page_window 11 11)
lone_jump_back_example = lone_jump_back 1 (omega arith)
