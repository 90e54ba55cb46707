-- ===== src/Ftp.antt =====
-- internal/ftpserver/server.go: the FTP server.
pub mod Command
pub mod Ports
pub mod Upload
pub mod World
pub mod Tests
mod UploadTests
pub mod Access
pub mod Control
pub mod Files
