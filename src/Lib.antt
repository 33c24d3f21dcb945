-- ===== src/Lib.antt =====
-- A library about AGCORE, the common layer of ESP-IDF devices: links that carry frames, the services
-- around them.
--
-- The program. A transport cuts a frame into fragments; pipe/data puts them together
-- (agcore_fragment_decode) and queues the whole message (agcore_data_push). The task of the queue
-- decodes the frame (agcore_rawdata_decode) and routes the message to the registered callbacks
-- (agcore_data_route_handler), of which the CORE commands are one. A callback answers through
-- agcore_data_send, which encodes a frame (agcore_rawdata_encode) and gives it to the transport of the
-- link. common/utils has the byte order and the checksums, common/version what GET_VERINFO answers.
-- common/lifecycle counts the boots in a record that common/persist keeps in NVS.
--
-- The files.
--   Utils        common/utils: Bytes (agcore_bytes.c), Check (agcore_check.c)
--   Platform     platform/espidf: error codes; Heap is the allocator behind agcore_malloc, Queue the
--                calls of FreeRTOS on a queue, with what is documented of them
--   Data         pipe/data: Types (the link table of agcore_data.c and the headers), Protocol and
--                Fragment (protocol/agcore_data_protocol.c)
--                Route (agcore_data_route.c), Queue (agcore_data.c), Command (agcore_data_core_cmd.c)
--   Ble          pipe/transport/ble: Pipe and Notify (agcore_ble_pipe.c), Gap (agcore_ble_gap.c), Gatt
--                (agcore_ble_gatt.c), Adv (agcore_ble_adv.c), Stack (agcore_ble.c), Host (what runs in
--                the context of the NimBLE host, as steps)
--   Version      common/version/agcore_version.c
--   Persist      common/persist: agcore_nvs.c and agcore_fs.c, and Flash for agcore_flash.c, over the
--                calls of ESP-IDF
--   Lifecycle    common/lifecycle/agcore_lifecycle.c: the boot record
--   Driver       driver: Pixel (pixel/pixel_driver.c, Rmt and Spi for its variants), Display
--                (display/display_driver.c, with St7735 and St7789 for display/panel)
--   Console      common/console: the output (agcore_console_adapter.c) and the tasks of the log
--                (log/agcore_console_log.c) and of the shell (shell/agcore_console_shell.c)
--   Tests        runs of the definitions and of the theorems at concrete inputs
--
-- The model. A byte is a number below 256 where a statement says so, a buffer is the list of the bytes
-- from its address on, and a pointer into one is the list with its front dropped. A function that
-- writes through a pointer takes and returns what the pointer stands for. A link is its number in the
-- enumeration, and LINK_COUNT the length of the link table, so that each build configuration is
-- covered. Widths are written out: u8 and u16 are the casts of the source.
--
-- The calls that tell NimBLE to do something are appended to a list in the state, what NimBLE answers is
-- an argument of each step, and the ticks of its clock are numbers below 2 ^ 32. The settings of Kconfig
-- (the largest message, the timeout) are arguments.
--
-- The drivers' calls of ESP-IDF are recorded in a list, too; what one is answered is a function of the
-- calls before it and of itself. The room that the RMT unit has at each call of its encoder is a list.
--
-- The loop of a notification runs on fuel, three attempts for each byte and three more: an attempt either
-- sends a byte or uses one of three retries.
--
-- The loop of agcore_console_output has as many rounds as it has bytes to pass on, since each round passes
-- on one or is the last; the log's task has a round more than the buffer of EasyLogger holds bytes. The
-- tasks of the log and of the shell are two lists of calls, each with the answers that it gets, and their
-- interleavings are a relation.
--
-- Other loops are structural recursion on the rounds that the source's condition leaves, so that no fuel is
-- chosen: the search for the header has at most buf_len - 3 rounds, the checksums have len.
--
-- What belongs to ESP-IDF, FreeRTOS and the C library is an argument: the answer of the allocator to a
-- size, the queue, the clock, the creation of locks. The heap is the list of the live addresses with a
-- count of wrong frees, so that ownership is a count of the pointers that hold an address. A block's
-- bytes are with the pointer that owns it. A callback is a function of the state by its address; what
-- stands outside of the layer is a value that callbacks change. A lock makes the call that holds it one
-- step. A node of the handler list counts as two pointers of four bytes.
--
-- Not modelled: what the other parts log, the shell commands, and the copies of EasyLogger and letter
-- shell, whose operations are arguments of the console.
pub mod Prelude
pub mod Platform
pub mod Utils
pub mod Data
pub mod Ble
pub mod Version
pub mod Lifecycle
pub mod Persist
pub mod Driver
pub mod Console
pub mod Tests
