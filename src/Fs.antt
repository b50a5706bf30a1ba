-- ===== src/Fs.antt =====
-- student-distrib/fs.c: the read-only file system image that the boot loader leaves in memory.
-- The arrays of the image are functions from an index; each access is guarded by the array's size.
mod Image
mod Read
pub mod Contents
unfoldable pub use Image.*
unfoldable pub use Read.*
