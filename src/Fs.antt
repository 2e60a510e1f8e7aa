-- ===== src/Fs.antt =====
-- kernel/fs: pipes, the maps of used blocks and inodes, files, inodes, directories and the block cache.
pub mod Pipe
pub mod Blocks
pub mod Bitmap
pub mod File
pub mod Icache
pub mod Dinode
pub mod Inode
pub mod Names
pub mod Dir
pub mod Bio
