-- ===== src/Lib.antt =====
-- librorc, the user-space library of the C-RORC readout boards: a model of the parts that move
-- events between a board and the memory of the host, of the flash that configures the board, and of
-- the devices on it.
--
-- The parts, from the board up:
--
-- * Bar.antt models the register windows (src/bar.cpp, src/bar_impl_hw.cpp): a record of the
--   operations that the other parts call, on a board in a state of any type W, and the guarded
--   implementation over a mapped memory. What a board does on a load, a store or a flush, and while the
--   program sleeps, is a parameter. Bar/Memory states what it means that registers keep their values.
-- * Link.antt models src/link.cpp: the register files of one channel, the status tests, the wait for
--   the clock domain, the control register and the data source. Registers.antt has the constants of
--   include/librorc/registers.h.
-- * Buffer.antt models src/buffer.cpp: initializeSglist reads the scatter-gather list of a DMA buffer
--   from sysfs (the record SglistFile is what it finds there) and combines adjacent records;
--   offsetToPhysAddr, physAddrToOffset and composeSglistFromBufferSegment use the list.
--   Buffer/Segments says what a list stands for: the physical address of every byte.
-- * DmaChannel.antt and its children model src/dma_channel.cpp: the control register, the offsets
--   (Pointers), the list that goes to the descriptor RAM (SgList) and configure (Configure). How the
--   firmware stores an entry is the record DescriptorRam in DmaChannel/Ram.
-- * EventStream.antt models src/event_stream.cpp: the ring of report entries between getNextEvent and
--   releaseEvent. The firmware writes reports into the ring; the program reads them in order, releases
--   them in any order, and frees the run of released entries at the release index by moving the read
--   pointers of the DMA channel. EventStream/Setup has the start of a stream, EventStream/Runs the
--   runs in which the board and the program take steps in any order.
-- * Flash.antt and its children model src/flash.cpp: commands on a block, the layout of the chip
--   (Layout), operations on all blocks (Chip) and on the contents (Program).
-- * Gtx.antt and its children model src/gtx.cpp: the settings of a transceiver and the alignment of its
--   receiver, the reconfiguration port (Drp), the PLL behind it (Pll) and the equaliser (Dfe). Gtx/Port
--   says what a working port does with a command.
-- * Ddl.antt models src/ddl.cpp, Ddl/Diu src/diu.cpp and Ddl/Siu src/siu.cpp: the detector data link
--   and the units at its ends. The link's register file is that of Link.antt.
-- * FastClusterFinder.antt, DataReplayChannel.antt, PatternGenerator.antt, EventFilter.antt and
--   Ddr3.antt model the classes of these names in src: registers of a link or of the board. Bar/Fields
--   says what it means that a setter and a getter are those of one field of a register.
-- * Sysmon.antt models src/sysmon.cpp: versions, LEDs, fan and counters, the serial buses (I2c), and
--   the replay of events into the DDR3 memory (Replay). Sysmon/Bus says what a slave on a bus does.
-- * RefClk.antt models src/refclk.cpp, an oscillator that is a slave on a bus of the system monitor.
-- * Microcontroller.antt models src/microcontroller.cpp: the commands that program the controller. The
--   record UcFile is what it finds when it reads the file.
-- * DataSource.antt models how tools_src/dma/dma_handling.cpp sets up the devices of a link as the
--   source of a stream, and releases them.
-- * Base.antt and its children are shared: words with their wrap-around, bits, lists, state and polling.
-- * Tests has concrete boards, buffers, streams and chips.
--
-- Conventions. An operation on a board is a function from its state to a result and the state after
-- it. Numbers are natural numbers; u16, u32, u64, sub32 and sub64 take the remainder where the source
-- wraps around. -1 is negsuc 0. An exception or a failure is none, false or a result type of its own.
-- Each operation of an event stream, which the source runs under a mutex, is one step.
--
-- Loops. A loop with a counter recurses on the counter. The others have fuel, and a theorem shows that
-- it is enough: one round for each byte of a segment in compose_loop, one for each byte in split_loop,
-- one more than there are entries in release_loop, 132 for the 131 blocks of a flash chip, and one for
-- every two bytes in find_loop. event_loop has the number of words of the event. The waits of the
-- reconfiguration port, of the serial buses, of the oscillator and of configureDataSource have no
-- limit in the source: their
-- fuel is a parameter, and the records DrpPort and I2cSlave say that the device answers before it ends.
--
-- Not modelled: files, sysfs and PCI configuration (their answers are parameters), the
-- simulated board of MODELSIM builds, results in floating point (temperatures, voltages, times and
-- optical sensors of the system monitor, the frequencies of the reference clock and of the PLL
-- settings), the other tools, and in the parts above the constructors and destructors that only allocate.
pub mod Base
pub mod Bar
pub mod Registers
pub mod Link
pub mod Buffer
pub mod DmaChannel
pub mod EventStream
pub mod Flash
pub mod Tests
pub mod Gtx
pub mod Ddl
pub mod DataReplayChannel
pub mod PatternGenerator
pub mod EventFilter
pub mod Ddr3
pub mod Sysmon
pub mod RefClk
pub mod Microcontroller
pub mod FastClusterFinder
pub mod DataSource
