-- ===== src/Filter.antt =====
-- The form "Insert Protocol Filter" (closedbsd/config/filter.c, and `inputs` of
-- closedbsd/config/misc.c): a loop over keys that moves a cursor `p` over the widgets, edits the
-- rule and inserts it.
pub mod Form
pub mod Down
pub mod Keys
pub mod Loop
pub mod Sound
pub mod Commit
pub mod Session
mod Examples
