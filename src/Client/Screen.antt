-- ===== src/Client/Screen.antt =====
-- What src/client/ui_client.c draws, as far as it computes something: the labels of a mask, the folded
-- message of the end, the chats below the scoreboard, and where the panes and rows lie.
pub mod Tags
pub mod Wrap
pub mod Chats
pub mod Panes
mod Tests
