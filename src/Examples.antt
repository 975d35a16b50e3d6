-- ===== src/Examples.antt =====
-- A small board, the runs of the operations on it, and the theorems at these inputs.
mod Data
mod Policies
mod Cards
mod Links
mod Watchers
mod Comments
mod Uploads
mod Versions
mod Told
mod Administration
mod Clock
mod Uploading
mod Undoing
mod Drops
mod Places
