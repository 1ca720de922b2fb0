-- ===== src/Lib.antt =====
-- Verification of MachineController: a Windows program that drives a paper-handling machine, and the
-- firmware of the glue controllers that it talks to.
--
-- The program's parts. The I/O card's polling thread, the serial ports and timers put events into a
-- queue; the logic thread hands each to the machine core and carries its effects out. The firmware of
-- a glue controller gets its configuration over a serial port and fires four glue guns at positions
-- that an encoder counts.
--
-- Base: Boolean tests, lists, integers and maps that all parts share. `narrow32` is the conversion to a
-- 32-bit `int`, and unsigned arithmetic is written modulo 2 ^ 32.
--
-- Firmware, arduino/GlueController/GlueController.cpp and .h:
--   State the globals; each gun's share of the arrays is one record `Gun`
--   Ring the zone ring, `ring_push`, `ring_pop`, `ring_peek`
--   Encoder `encoderISR` and the position; Rows the merging of rows in `handleConfig`; Zones
--   `calculateFiringZones`; Dots, Lines and TestMode the passes of `updateGuns` over one gun;
--   Controller `updateGuns`; Serial and Messages `processSerial`, `handleConfig`, `initCalibration`,
--   `handleTest`; Loop `checkSensor` and `loop`
-- An iteration of `loop` takes what it reads from outside (pulses, bytes, sensor, currents, test inputs
-- and clock) as a record, so a run is a list of such records. Arithmetic on `double`, the JSON library
-- and `std::sort` are parameters (Platform).
--
-- MachineCore, src/machine/DefaultMachineCore.cpp: State the settings and the checks, Store the cells
-- of messages, Step the function `step`, whose result keeps the state also when an exception leaves it.
--
-- IoCard, src/io/windows/PCI7248IO.cpp: Ports the naming of ports and pins, Inputs the reading of input
-- ports, Outputs the writing of output ports, Start the constructor, `initialize` and the destructor. The
-- driver's calls are arguments, or in Start a record of their results with a trace of the calls made.
--
-- Config, src/Config.cpp: Pins the pins, the ports and their check, Getters the single values,
-- Defaults the default settings and the updates of sections. The JSON library is a parameter: a record
-- of the calls that the code makes (`JsonTree`, `JsonEditor`) and a record of the laws that proofs use
-- (`IsTree`, `IsEditor`).
--
-- Protocol, src/communication/ArduinoProtocol.cpp: an object that is sent is the map that its
-- assignments leave. Reading says what the firmware's library reads of such an object, so that the
-- theorems on messages put the program and the handlers of Firmware together.
--
-- EventQueue, include/EventQueue.h, and Timers, include/Timer.h: the calls of the threads as steps that
-- interleave in any order. The mutex of the queue makes each of its calls one step; a timer's flag is
-- not guarded, so the worker's test of it and its sleep are two steps.
--
-- Rs232, src/communication/RS232Communication.cpp: Settings the check of settings and the delimiters,
-- Port `initialize`, `send`, `close`, `startReceiving` and where the receiving thread stands, with the
-- answers of Windows as an argument, Framing the loop that cuts received bytes into messages, Scan the
-- same as an automaton over single bytes. The loop runs on fuel; the length of the buffer is enough,
-- since each message takes at least one byte.
--
-- Logic, src/Logic.cpp and include/Logic.h: State the members of `Logic` and the actions it takes
-- towards the GUI, timers, ports and the card, Cycle the function `oneLogicCycle`, which hands the
-- core of MachineCore its inputs and carries its effects out, Setup `initTimers` and
-- `initializeCommunicationPorts`, Start the constructor, `run` and `stop`, References
-- `refreshMasterFileReferenceSet`, Events the handlers and the event loop, and the two slots that the
-- GUI calls. The configuration, the clock, the ports that can be opened and the answer of the card are
-- read anew by each event (`Surroundings`); an exception that leaves the thread is the value `none`. A
-- member that the language leaves open, in a `Timer` or `IOChannel` that a map makes, is a parameter
-- (`Fresh`).
--
-- Gui, the glue tab of src/gui/SettingsWindow.cpp: Json the calls of the JSON library with their laws,
-- Window the members of the class, the widgets of the tab and the configuration, Setup the messages
-- that the window sends, Store what each slot makes of the glue settings, Loading and Filling the
-- loading of the tab from the settings, Slots and Structure the slots themselves, Actions the signals
-- that reach them, Sound the states that they lead to. A slot changes a copy of the settings and
-- stores it at its end: `none` is an exception, or a return before that. A call that Qt queues is
-- counted in `posted`. The search for a new controller's key runs on fuel; one more than the number of
-- keys is enough. The draws of `std::rand` are a list, and Qt's conversions of texts and numbers a
-- record (`Qt`). The pointer `config_` is taken to be set.
--
-- Each of these has a module Tests with the theorems at concrete inputs.
--
-- Not modelled: the main window and the other tabs of the settings window, whose slots show or write
-- single settings; the signal glueGunsChanged; the text of an item of the controllers' box while its
-- name is typed, which the reload replaces; reading and writing of the configuration's file, beyond
-- that it can be written; TCP/IP, which the build leaves out; how the receiving thread of a port waits
-- for bytes; the slots of the logic while its thread runs, which the source does not lock; and the
-- calls of Windows and of the driver. external/ is a copy of another project's library.
pub mod Base
pub mod Firmware
pub mod MachineCore
pub mod IoCard
pub mod Rs232
pub mod Logic
pub mod EventQueue
pub mod Timers
pub mod Protocol
pub mod Config
pub mod Gui
