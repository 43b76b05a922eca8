-- ===== src/Transfer.antt =====
-- File_Transfer_Lab_Part_I, Part_II and Part_III: the transfer of a file over datagrams.
pub mod Packet
pub mod Ack
pub mod Disk
pub mod Deliver
pub mod FileServer
pub mod Link
pub mod Plain
pub mod Handshake
pub mod Tests
