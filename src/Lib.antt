-- ===== src/Lib.antt =====
-- Verification library of the console host, a server that the Windows console driver calls and that
-- keeps the state of a console: its screen buffers, its input and its command histories.
--
-- The parts of the program and how they interact. src/condrv/condrv_server.hpp takes requests from the
-- driver. Output goes to a `ScreenBuffer`, a grid of cells with a cursor and a window, directly or
-- through the parser of VT output. Input arrives as bytes, which src/condrv/vt_input_decoder.cpp cuts
-- into key events, text and ignored sequences. A client's line input is kept in the pool of
-- src/condrv/command_history.cpp, one history for each process. The parsers of the command line and
-- of the configuration, and the VT code, read and print numbers through
-- src/serialization/fast_number.cpp. The byte streams that src/runtime/session.cpp and
-- src/runtime/terminal_handoff_host.cpp read are decoded by src/core/utf8_stream_decoder.hpp.
--
-- Which file models which part. A definition has the name of the function that it models.
--   Number, Number/*     src/serialization/fast_number.cpp: the integers. `Value`, `Decimal` and `Hex`
--                        hold the proofs. Results are `Expected`, as in the source.
--   Vk                   the virtual key codes that src/condrv/vt_input_decoder.cpp names.
--   VtInput, VtInput/*   src/condrv/vt_input_decoder.cpp: `try_decode_vt` over a list of bytes. The out
--                        parameter is the argument and the result `DecodedToken`.
--   Input, Input/*       the pending bytes and the decoders of input in src/condrv/condrv_server.hpp, over
--                        lists of bytes. The conversions of Windows are parameters. Bounds and Count hold
--                        the proofs.
--   History, History/*   src/condrv/command_history.cpp: `CommandHistory` and `CommandHistoryPool`. The
--                        list of the pool is a list, an iterator is a position with its entry, and the
--                        comparison of names, a function of Windows, is a parameter.
--   Screen               `ScreenBuffer` of src/condrv/condrv_server.cpp: state, constructor, window.
--   Screen/Cursor, Screen/Alternate, Screen/Size, Screen/Cells
--                        its setters and saved cursor, the alternate buffer, the resize, and the
--                        operations on cells; Window, Place, Loops, Output, Insert, Resized and Copied
--                        hold the proofs.
--   Screen/Scroll        its `scroll_screen_buffer`.
--   VtOutput             `apply_text_to_screen_buffer` of src/condrv/condrv_server.hpp: the variables of
--                        a call (`Call` what stays the same, `Output` what changes), and the helpers on
--                        lines and characters. `Sgr`, `Csi`, `Edit`, `Modes` and `Dispatch` are what a
--                        CSI sequence does, `Parser` is the parser, whose state outlives a call, `Reset`
--                        what an escape sequence does, `Machine` the loop, and `Apply` the call. The
--                        other modules hold the proofs.
--   Server, Server/*     `ServerState` of src/condrv/condrv_server.cpp: the processes and the handles;
--                        `Connect` is `connect_client` and the constructor, `Options` the settings, the
--                        titles and the histories; Cases, Invariant and Start hold the proofs.
--   Dispatch, Dispatch/* `dispatch_message` of src/condrv/condrv_server.hpp: `Connection` for the messages
--                        on processes and handles, `Buffers` and `Cells` for those on a screen buffer,
--                        which `Calls` puts into one function, `Settings` for those on the state, and
--                        `Aliases` and `AliasLists` for those on the aliases, whose text `Strings` reads
--                        and writes; there the conversions of Windows are parameters. `Ledger` is what a
--                        client can know from the replies. The other modules hold the proofs.
--   Alias, Alias/*       the alias tables of `ServerState` in src/condrv/condrv_server.cpp.
--   Utf8, Utf8/*         src/core/utf8_stream_decoder.hpp: the bytes that stay pending are the second part
--                        of a result. The conversion, a function of Windows, is a parameter. Stream,
--                        Malformed and Cut hold the proofs.
--   CommandLine          src/cli/console_arguments.cpp: the arguments and `escape_argument`; `Tokens` is the
--                        loop over the tokens, and Escape and Consumed hold the proofs. What
--                        CommandLineToArgvW, a function of Windows, makes of a text is a parameter.
--   Config, Config/*     src/config/app_config.cpp: `Config` is the parser of a text, `Load` the order of
--                        the files and the environment, which are parameters; Sources holds the proofs.
--   Prelude, Prelude/*   numbers, tests, lists, text as code points, integers, results, and maps from
--                        numbers.
-- A module called Tests runs the definitions and applies theorems to concrete values.
--
-- How state and integers are modelled. An operation that changes an object takes and returns it; a
-- mutation that may fail to allocate takes a Boolean that says whether the allocation succeeds; a
-- call of the parser of VT output takes one for all its allocations, returns the title and the
-- answers to queries that it hands on, and takes whether anyone is there to answer. A machine integer
-- is the native ℕ or the ℤ of Prelude/Int, and a cast or a wrap-around is written out:
-- `% 2 ^ w` for an unsigned one, `to_i16` for a cast to `SHORT`. A `long` that the source computes from
-- values of type `SHORT` is exact, since it cannot overflow. A character is its code point.
--
-- Loops are recursion on the list they run over or on their count. `decode_loop` of Utf8 has fuel, the
-- number of bytes, `sgr_loop` of VtOutput/Sgr, the number of parameters, and `parse_tokens` of
-- CommandLine/Tokens, the number of tokens: each turn consumes at least one. So do the loops of Input,
-- whose fuel is the number of bytes.
--
-- A handle is the address of what it names, which the allocator chooses: an operation takes it as an
-- argument. A `shared_ptr<ScreenBuffer>` is a position in the host's list of buffers, which only grows.
--
-- What is not modelled. The queue of input and its threads, the messages that carry the text or the
-- rectangles of cells, titles and command histories, and the loop that takes messages from the driver are
-- not modelled. Rendering, sessions, COM, logging and the wrappers of Win32 are calls of the system, and
-- so is reading the file of a configuration. The float routines of
-- src/serialization/fast_number.cpp only call the standard library.
pub mod Alias
pub mod CommandLine
pub mod Config
pub mod Dispatch
pub mod History
pub mod Input
pub mod Number
pub mod Prelude
pub mod Screen
pub mod Server
pub mod Utf8
pub mod Vk
pub mod VtInput
pub mod VtOutput
