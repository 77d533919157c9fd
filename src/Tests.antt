-- ===== src/Tests.antt =====
-- Runs of the model on concrete boards, buffers and streams.
pub mod Device
pub mod BufferTests
mod ChannelTests
mod StreamTests
mod FlashTests
mod FieldTests
mod ClusterTests
mod DdlTests
mod LineTests
mod GtxTests
mod SerialTests
mod ReplayTests
mod ProgrammingTests
mod DiuTests
mod SourceTests
