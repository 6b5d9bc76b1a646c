-- ===== src/Examples.antt =====
-- The theorems at concrete inputs, and tests of the definitions that they speak of.
mod Updates
mod Tokens
mod Pushes
mod Locks
mod Parents
mod Searches
mod Downloads
mod Mirrors
mod Pictures
mod Posts
mod Pages
mod Shown
mod Created
mod Pinned
mod Acts
mod Edited
mod Swept
mod Filed
mod Paged
