-- ===== src/Disk.antt =====
-- bip_disk: blocks (Block), the file system behind them (FileSystem), a block's way to the files of a
-- torrent (Accessor), the checker of pieces (Checker), what is done for each message (Tasks), and the
-- manager that takes the messages and gives the answers (Manager).
pub mod Block
pub mod FileSystem
pub mod Accessor
pub mod Checker
pub mod Tasks
pub mod Manager
