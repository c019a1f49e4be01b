-- ===== src/Lib.antt =====
-- NanoVNA-X, the firmware of a handheld vector network analyser, in C over ChibiOS. This library
-- models the parts of it that are pure logic and states what makes them correct.
--
-- src/core/common.c is Text: string and buffer routines that the shell, the keypad and the
-- screenshots share. Text/Number has my_atoi and my_atoui, Text/Compare to_lower, strcmpi and
-- swap_bytes, Text/Options get_str_index, Text/Line _strpbrk and parse_line, Text/Packbits
-- packbits. src/sys/chprintf.c is Printf: Printf/Long has long_to_string_with_divisor.
-- src/sys/event_bus.c is EventBus: the bus through which the sweep, the shell, the configuration
-- service and the user interface notify one another. src/driver/board_events.c is Board: the events
-- of buttons and of the touch panel, counted by topic until the main loop dispatches them.
-- src/rf/sweep.c is Sweep: app_measurement_sweep, the state machine that steps over the points of a
-- sweep, tunes, captures and stores both channels, and shows its progress through the event bus.
-- Sweep/State has its state with the progress bar and the LED, Sweep/Corrections the error terms,
-- the electrical delay and the offset; Sweep itself the handlers, the loop and the call.
-- Sweep/Frequencies has the frequencies of the points for both builds, Sweep/Capture the capture of
-- samples by interrupts, Sweep/Snapshots the flags that keep a reader and the sweep apart, and
-- Sweep/Snapshots/Race the tick of src/rf/measurement.c beside a reader. src/sys/config_service.c
-- is Storage: the configuration and the calibration slots in the flash, with their checksums;
-- Storage/Blocks has the blocks and Storage/Calls the calls as steps. src/sys/state_manager.c is
-- StateManager: the settings that are restored at power-up and saved by themselves.
-- src/sys/shell_service.c is Shell: Shell/Session has the connection and its callbacks,
-- Shell/LineEdit the line editor, Shell/Channel the loops that read and write, Shell/Command the
-- lookup of a command, Shell/Pending the commands that the shell hands to the sweep.
-- src/runtime/runtime_entry.c, of which this library has the frequency range, is Range.
-- src/ui/core/ui_keypad.c is Keypad: the clicks on the keys and the buffer they edit.
-- src/driver/si5351.c is Synth: Synth/Fraction approximates a fraction, Synth/Registers has the
-- bytes for the PLLs and the dividers, Synth/Bands the tables of the bands and the search for one,
-- Synth/Driver the state and the functions for one PLL or one divider, Synth/Tune the call that
-- sets a frequency; Synth/Does is the step relation of what programming does to the state,
-- Synth/Sent what the transfers have left in the chip. src/sys/shell_commands.c is Commands:
-- Commands/Range is cmd_sweep on the range of Range, Commands/Scan what cmd_scan makes of its
-- arguments, Commands/Marker cmd_marker. src/ui/core/hardware_input.c is Input, the lever with its
-- button. Printf/Freq is ulong_freq of src/sys/chprintf.c. src/ui/core/ui_menu_engine.c is Menu,
-- the stack of menus and the selection. src/driver/uart_dma.c is Serial, the loop that sends in
-- chunks. Base holds shared names, lists and machine words. Tests applies the theorems at concrete
-- inputs.
--
-- How the model stands to the code. A C string is the list of its bytes without the NUL; `char` is
-- unsigned, as on ARM. In Text/Line memory is the list of all bytes of the buffer, the NUL and what
-- stands behind it included, and an access outside the buffer is `none`; the count of the arguments
-- is not cut to its 16 bits, which a call with room for at most 65535 arguments does not fill. An
-- int32_t is its bit pattern, and all arithmetic wraps at 2 ^ 32. A pointer to the object that a
-- function works on is not NULL; other pointers are options. Callbacks are numbers, and the calls
-- that are made are returned as a list in order; what a callback does in turn is not modelled.
-- Locks have no counterpart: an operation is one step.
--
-- The mailbox of ChibiOS is the parameter Mailbox of EventBus/Port, a record of the operations that
-- the bus uses with their documented laws; Tests/Buses fills it.
--
-- In Sweep the static variables and the context of the call are one record. Each turn of the loop
-- has an Input: the clock, a request to cancel, the results of the generator driver, the end of the
-- wait for a capture, the sample, and the error terms that cal_interpolate leaves. The floating-
-- point unit is the parameter Float of Sweep/Port. The writes to `measured`, the captures and the
-- published progress are lists in order. Sweep/Call is the call with its wait for a reader of the
-- last sweep, which has the looks that it makes as a list; `sweep` of Sweep is a call that nobody
-- keeps waiting. Sweep/Snapshots/Race has the wait among the steps in which the engine and a reader
-- run beside each other; each locked section is one step there, what a sweep or a file that is
-- loaded writes is arbitrary, and the transformation to the time domain, which computes in floats,
-- is a parameter.
--
-- In Storage a struct is the fields that this library reads and a list of the words of the others.
-- A call that waits for the semaphore of the flash is told whether it gets it, and one that
-- programs the flash what the flash makes of the block. The system time of StateManager is modulo 2
-- ^ 32.
--
-- In Shell the bytes that arrive are a list, and what the channel does with a call, with the state
-- of the connection behind it, is an attempt; a list of attempts that ends is a loop that still
-- waits. What a command does is an effect on the flag for resuming the sweep.
--
-- In Range the frequencies are 32-bit words. The updates of the frequency table, the backup and the
-- grid that follow a change are left out.
--
-- In Keypad the buffer is the list of its bytes, and an access outside it is `none`.
--
-- In Synth the driver's actions are a list, the last one first, and a read behind the table of the
-- bands is `none`; the crystal, the offset, the threshold and the table, which the driver reads
-- from the configuration, are fields of its state, the threshold as it is after the clamp. Fields
-- of a register that do not overlap are added where the code joins them by `|`. The loop of
-- approximate_fraction has the denominator for its fuel, since each round makes it smaller.
--
-- In Commands an argument is a text, which Text/Number and Text/Options read; what a command prints
-- is left out but for the kind of the reply, and so are the redraw requests.
--
-- In Input a look of a loop, which reads the clock and the contacts, is an entry of a list, and a
-- list that ends is a loop that still waits. In Serial what the UART driver makes of a call is an
-- entry of a list in the same way. In Printf/Freq a read behind the digits is `none`.
--
-- In Menu a pointer to an item is its address, the memory is a parameter, and the fuel of the loop
-- that counts items is a number that a menu of fewer items never uses up.
--
-- In Shell/Pending the slot of the command that waits is state. The loop that serves it has a list
-- of what the shell's thread does in each of its rounds.
--
-- Fuel. packbits, get_str_index and parse_line run on the length of their input, which each round
-- shortens; long_to_string runs for 32 rounds and one for each digit of the precision, since a
-- 32-bit number is used up in 32 divisions by 2 or more. The loop of a sweep runs on turns; 2200
-- for a point and 2200 more are enough, since a point has at most 255 cycles of two channels. The
-- loop of the keypad runs for 65536 rounds, which is all that its uint16_t can count. The loop of
-- the commands that wait runs for two more rounds than what the shell's thread does is listed for.
-- The theorems state the results of these runs, so the fuel is enough.
--
-- Not modelled: what else computes in floats (my_atof, the signal processing, the calibration and
-- its interpolation), the other drivers and the drawing, which are input and output, and the copies
-- of ChibiOS and FatFs.
pub mod Base
pub mod Printf
pub mod Text
pub mod EventBus
pub mod Sweep
pub mod Board
pub mod Storage
pub mod StateManager
pub mod Shell
pub mod Range
pub mod Keypad
pub mod Synth
pub mod Commands
pub mod Input
pub mod Menu
pub mod Serial
mod Tests
