-- ===== src/Lib.antt =====
-- guacenc: Guacamole's server, guacamole-server-1.1.0, and the recording tools beside it, in C.
-- The files of this library name sources from that directory: src/libguac/parser.c is
-- guacamole-server-1.1.0/src/libguac/parser.c.
--
-- A recording is a sequence of instructions. The parser reads them from a socket and cuts them into an
-- opcode and arguments, counting characters by the UTF-8 functions. The encoder guacenc hands each
-- instruction to a handler, which changes a display: layers, buffers, a cursor and streams of images that
-- arrive in base64. Syncs advance the timeline of the video. The interpreter guaclog hands the key
-- instructions of a log to a state of tracked keys, which prints readable text. The server writes
-- instructions to sockets, which the parser of the client or of the recording tools reads.
--
-- Files, by part:
--   Base          numbers, lists, the C `int` (Base/Int), `|` on words (Base/Bits)
--   Utf8          libguac/unicode.c: charsize, strlen, write, read
--   Parser        libguac/parser.c: guac_parser_append is append; Parser/Reader: guac_parser_read is read,
--                 guac_parser_length and guac_parser_shift are unparsed_length and shift
--   Output        libguac/socket.c: guac_socket_write and what stands on it; Output/Encoding: base64
--   Protocol      libguac/protocol.c: guac_protocol_send_size is send_size, and so on, by groups;
--                 Protocol/Calls: what each sender is asked to send; Protocol/Received: what the parser
--                 of the other side makes of it
--   Base64        libguac/protocol.c: guac_protocol_decode_base64
--   Pool          libguac/pool.c: guac_pool_next_int and guac_pool_free_int
--   Arguments     guacenc/parse.c
--   Buffer        guacenc/buffer.c: resize, fit, copy
--   Display       guacenc/display*.c, layer.c, cursor.c, image-stream.c: the state and its lookups;
--                 Display/Depth: guacenc_display_get_depth; Display/Handlers and Display/Commands:
--                 guacenc/instruction-*.c; Display/Dispatch: guacenc/instructions.c without mouse and
--                 sync; Display/Flatten: guacenc/display-flatten.c; Display/Sync: guacenc/display-sync.c,
--                 instruction-sync.c, instruction-mouse.c, and the whole of instructions.c
--   Video         guacenc/video.c: guacenc_video_advance_timeline and what it calls;
--                 Video/Letterbox: the sizes of guacenc_video_prepare_frame
--   KeyLog        guaclog/state.c, keydef.c, instruction-key.c; KeyLog/Known: the table of keys
--   Rect          common/rect.c, and common/common/rect.h for the type: Rect/Pixels for rectangles as
--                 sets of pixels, Rect/Splitting for the cut, Rect/Grid for the grid
--   Strings       libguac/string.c in Strings/Joining, where the C library has no strlcpy, and
--                 common/string.c in Strings/Splitting
--   Examples      tests, and the theorems at concrete inputs
--
-- Conventions. A byte is a number below 256 and a C string the list of its bytes. A C `int` is an integer
-- of Base/Int where the source computes with signs, and its 32 bits where it may wrap around. Pointers
-- into an array are indices. An array of pointers is a function, with none for NULL. A buffer is used
-- through its place, so that two pointers to one buffer are one place.
--
-- Fuel. The loop of guac_parser_read runs on a number of rounds; 3 * 32768 + 2 are enough, since between
-- two calls of the socket each round takes bytes of a buffer of 32768 or ends. guac_parser_append scans content
-- with as many rounds as there are bytes. guacenc_display_get_depth runs on fuel; the height of the tree
-- of layers is enough. guac_socket_write has as many rounds as bytes, which are enough where each call of
-- the write handler takes a byte; a handler that takes none is not followed further. guac_split has
-- one round for each token there is space for, one more than there are delimiters, and ends in the last.
--
-- Parameters. The socket that is read (Socket), the handlers and the clock of the one that is written
-- (Handlers), snprintf for numbers (Formats), libavcodec (Encoder), Cairo with calloc for its images,
-- the image decoders and atoi (Tools), qsort (Qsort), libswscale (Libraries), strtol (Strtol), bsearch
-- and the conversion of a keysym to hexadecimal (Libc).
--
-- Signed arithmetic that overflows is undefined in C: a model gives none for it (timestamps, the order of
-- layers) or assumes that it does not happen.
--
-- Not modelled: memory that runs out (but for the images of buffers), locks and threads, files, the
-- jobs of the encoder, the daemon, the terminal and the protocols. Lengths of image streams and
-- coordinates of drawing stay in the range of an `int`, and so do the bytes of an image, the
-- milliseconds of the frames that a sync adds, and the difference of two keysyms.
pub mod Base
pub mod Utf8
pub mod Parser
pub mod Output
pub mod Protocol
pub mod Video
pub mod KeyLog
pub mod Base64
pub mod Pool
pub mod Arguments
pub mod Buffer
pub mod Display
pub mod Rect
pub mod Strings
pub mod Examples
