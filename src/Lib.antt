-- ===== src/Lib.antt =====
-- A RISC-V RV32IMAC emulator in Python: its processor, its memory, its memory-mapped timer, the
-- loading of programs, its execution loops, the stub that lets a debugger control it, and the page
-- that runs it in a browser.
--
-- The program and the files that model it:
-- * rvc.py expands a compressed instruction to a 32-bit one. Rvc has `expand_compressed`, with one
--   child for each quadrant; Rvc/Manual lists the C extension again, from the tables of the manual.
-- * ram.py has five classes of memory. State declares `Ram`, the attributes of all of them, and
--   `RamClass`; Ram/Plain, Safe, Offset, Mmio and SafeMmio have the methods of RAM, SafeRAM,
--   SafeRAMOffset, RAM_MMIO and SafeRAM_MMIO; Ram/Bytes has what they share, the bytearray and its
--   word view; Ram/Access chooses the method by the class; Ram/Create has the constructors and
--   `initialize_ram`. Ram/Binary and Ram/Writes have the laws of the transfers of bytes,
--   and Ram/Specification says what SafeRAM promises.
-- * peripherals.py has the devices. Peripherals finds the device of an address, and
--   Peripherals/Timer models MMIOTimer, which shares `mtime` and `mtimecmp` with the processor.
--   Peripherals/Block models MMIOBlockDevice over a file and Peripherals/Uart models PtyUART over a
--   pseudo-terminal, which are parameters; the two are not among the devices of the memory.
-- * cpu.py has the handlers of the opcodes and the class CPU. Cpu/Alu, Memory, Control, Csr, System
--   and Amo have the handlers, Cpu/Trap the traps and the timer interrupt, and Cpu/Execute the
--   decode caches, the table of handlers and `execute_32`, `execute_16` and `execute`. Cpu/Create
--   has the constructor of CPU.
-- * machine.py has the execution loops and loads programs. Machine has `run` and the body of each
--   loop, and Machine/Checks has `trigger_check` and `check_invariants`, which the debug loop calls.
--   Machine/Loader has the constructor of Machine, `load_flatbinary`, `load_elf` and `setup_argv`.
-- * gdbstub.py has the remote protocol of GDB. Gdb/Packet has class GDBPacket, Gdb/Receive has
--   `recv_packet`, Gdb/Session the attributes of GDBStub beside the emulator, Gdb/Registers, Memory,
--   Control and Monitor the commands, and Gdb/Dispatch `handle_command`.
-- * syscalls.py answers the system calls of a program built with Newlib. Syscalls has its state,
--   the calls that need no file and the host's calls as a record; Syscalls/Files has the others and
--   `handle`, the dispatch.
-- * Machine/Debug and Machine/Stub model `run_with_gdb` and `run_gdbstub` of machine.py, which run
--   the emulator between the commands. Machine/Debug has `check_for_interrupt` of gdbstub.py too.
-- * advanced/webapp/py/browser_entry.py keeps the emulator of the page and runs it in chunks
--   between the page's events. Browser has its state and `initialize`, `load_file`, `start`, `stop`,
--   `reset` and `update_options`, Browser/Execution has `run_chunk`, and Browser/Lifecycle the
--   orders in which the page may call them.
-- * advanced/webapp/py/browser_syscalls.py answers the system calls on the page: Browser/Syscalls.
-- * run_unit_tests.py runs the tests of the RISC-V suite: UnitTests has one test, with a number of
--   rounds for its loop, and UnitTests/Verdict its rounds as a relation.
-- * Text has what these files use of Python's `str`: slices, `split`, `int` and formats.
--
-- The processor and the memory are one record, `System`. A method that may raise is an `Exec`: it
-- gives a value or the exception, and in both cases the state, since what was written before an
-- exception stays written. Bytes, registers and addresses are natural numbers, and every `& mask`
-- of the source is written out as a remainder or as `bit_and`; where Python computes a negative
-- number the model has ℤ. Registers, CSRs, memory and the caches are functions of the index.
--
-- Bounds: `scale`, which finds the exponent of a double, has fuel 84, enough since a quotient of
-- two numbers below 2 ^ 32 reaches 53 binary digits within 84 doublings. A loop of machine.py runs
-- for a number of rounds, which is an argument, because `while True` ends only by an exception.
-- The loop that serves a debugger has fuel for the commands, of which more than there is input is
-- enough, and a number of rounds for each run of the program; where the program is still running
-- after them, the result says so.
--
-- The connection of the debugger is the list of the characters that arrive and of pauses between
-- them, at which a call that does not wait finds nothing; after the list the peer has closed it.
-- The set of breakpoints is its characteristic function. A text is the list of its code points.
--
-- A handler of a system call gives the value that it writes to register a0 as an integer, since the
-- source writes a negative number there for an error and the registers of the model have none; the
-- handler that the processor calls is therefore a parameter of its own.
--
-- Parameters: the handler of system calls (`cpu.handle_ecall`), the calls of the host's files and terminals,
-- and the `run` methods of the devices, which reach files, sockets and terminals of the host; the messages of
-- Python's exceptions, which the monitor command shows and from which a signal is chosen; what the
-- package elftools reads from a file and what a file holds; the numbers that `random` gives; and
-- the callback by which a program writes to the page.
--
-- Not modelled: log messages, the tracing of functions and the printing of registers; the creation
-- of the terminal of PtyUART and of the image of MMIOBlockDevice, and their place on the bus;
-- `listen` and `close` of gdbstub.py, and errors of the socket other than its end; the command
-- line; the texts that a run of the page ends with, and the options of its log; and the files
-- cpu.py, ram.py, rvc.py, machine.py and browser_peripherals.py of advanced/webapp/py, which are
-- copies of the files that are modelled. They are text, host files, sockets or copies.
--
-- Prelude has the shared names, Bits the laws of the bitwise operations, State/Leaves the
-- invariants of methods that may raise, and Invariant the well-formed states, one file for each
-- part that keeps them; Invariant/Create and Invariant/Boot go from the constructors over the
-- loading of a program to its run. Tests has example states.
mod Prelude
pub mod Bits
pub mod State
pub mod Text
pub mod Syscalls
pub mod Ram
pub mod Peripherals
pub mod Rvc
pub mod Cpu
pub mod Machine
pub mod Gdb
pub mod Invariant
pub mod Browser
pub mod UnitTests
mod Tests
