-- ===== src/Examples.antt =====
-- Concrete runs of the theorems, over a small bufferevent that keeps its bytes in lists.
mod World
mod Wire
mod Echoes
mod Talks
mod Leftover
mod Life
mod Deleted
mod Floods
mod Counts
mod Masses
mod Recons
mod Timers
mod Server
mod Histories
mod Web
mod Tools
