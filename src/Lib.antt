-- ===== src/Lib.antt =====
-- A model of the core of paramiko, an implementation of the SSH 2 protocol in Python.
--
-- A program that uses paramiko owns a `Transport`, which runs one thread per connection. The
-- transport negotiates algorithms with its peer, reads and writes packets, and hands the
-- messages of each open channel to a `Channel`. A channel keeps two `BufferedPipe`s, which its
-- transport's thread feeds and the program's threads read, and the windows of the flow control
-- in both directions. Every packet is a `Message`, a byte stream with typed fields, whose
-- integers of arbitrary size are packed by `paramiko/util.py`.
--
-- The files, and what each models:
--   Base          shared names, lists over the native numbers, errors as values (`Result`), and
--                 Python's ASCII strings as lists of codes.
--   Wire          `struct.pack` and `struct.unpack` of big-endian words.
--   LongInt       `inflate_long` and `deflate_long` of paramiko/util.py. The loop of
--                 `deflate_long` runs on fuel, as many rounds as the magnitude of the number;
--                 each round divides it by 2 ^ 32, so the fuel is never used up.
--   Message       paramiko/message.py: a `BytesIO` is its bytes and its position. Message/Fields
--                 pairs each adder with its getter.
--   BufferedPipe  paramiko/buffered_pipe.py. A method that waits on the condition returns
--                 `blocked`; `read_woken` is the part of `read` that runs after a wait, for any
--                 state in which the wait may end and for a timeout that has passed or not.
--   Channel       paramiko/channel.py. State is the record and the set-up calls; Sending is
--                 `send`, `send_stderr`, `_send`, `_wait_for_send_window` and `_window_adjust`;
--                 SendAll is the loop of `sendall`: other threads may make any calls on the
--                 channel before each `send` and while one waits, among them a window that
--                 grows, a close and an end of file, and the time of a wait may run out. Its fuel
--                 is one round more than there are bytes. Kept and Answered are about one `send`,
--                 Progress about the loop;
--                 Receiving is `recv`, `recv_stderr`, `_check_add_window` and the feeding;
--                 Closing is end of file, close, `shutdown`, `_unlink` and `_handle_request`. A
--                 method returns the new state and the list of the messages that it gives to the
--                 transport after it has released the lock, in their order. Run puts all of them
--                 together as the steps of a run.
--   Packetizer    paramiko/packet.py: State is the record, the switch of ciphers and the timer of
--                 the handshake; Sending is `_build_packet`, `_inc_iv_counter` and
--                 `send_message`. The cipher, the HMAC, the compressor and the random bytes of
--                 the padding are arguments. Sequence is about the numbers of the packets. Reading
--                 is `read_all`, over a sequence of what the socket does at each call; Receiving is
--                 `read_message`, over any way to read bytes, of which `exact` is the one that has
--                 all of a stream. Stream is about `read_all`; Unpacked, Unencrypted and Delivered
--                 are about a packet that is sent and read.
--   Auth          paramiko/auth_handler.py, the side of a server: State is the handler, the messages
--                 and what the application's server object (paramiko/server.py) answers; Server is
--                 the parsing of each message; Run is the handler's table and a sequence of
--                 messages, for each of which the server object may answer anew. Granted, Sound,
--                 Attempts and Limits are about who is let in, and how often a client is refused.
--                 Keys are a type, with loading and verification as parameters, and a GSS-API
--                 context is its test of a MIC.
--   Transport     paramiko/transport.py: State is what the negotiation reads, Negotiation is
--                 `_send_kex_init`, `_really_parse_kex_init` and `_parse_kex_init`, from the
--                 preferences of one end to its choice of algorithms; a KEXINIT message is its
--                 lists as the other end reads them, which Names derives from the bytes. Loop is
--                 the state of the thread and the table of channels, Channels the opening of
--                 channels, Dispatch one round of the loop of `run`, from a message that
--                 `read_message` has returned to the end of its handler. What the application and
--                 the engine of the key exchange answer in a round is the record `World`, which
--                 may be another one in each round; the authentication handler is that of a
--                 server. The search of `_next_channel` runs on fuel, one more step than there are
--                 channels, and Fresh is about what it finds.
--                 A channel stays in the table until it is unlinked, though the table holds weak
--                 references. Gate, Modes, Authorization and Reached are about unauthenticated
--                 clients, Unexpected about messages out of order.
--   Sftp          paramiko/sftp_attr.py: Attributes is `_pack` and `_unpack`, over Message.
--   BufferedFile  paramiko/file.py: State is the record, `_set_mode` and the kinds of newlines;
--                 Reading is `read`, Lines is `readline` and `readlines`, Writing is `write`,
--                 `flush`, `close` and `writelines`. The stream of a subclass (`_read`, `_write`)
--                 is a record of functions, with what a subclass promises of them: bytes in their
--                 order, and some if there are some. The loops run on fuel: a sized read and a
--                 write never need more rounds than bytes, and the other readings no more than
--                 there are bytes still to come, and one. Exact, FirstLine, Limit, Scanned, Lined and
--                 Split are about reading, Settled, Kept and Delivered about writing.
--   HostKeys      paramiko/hostkeys.py: Entry is a line and the hashing of names, Table the entries
--                 and their lookup and changes; the entries that a lookup finds are a list, and not
--                 changed through it. A loop that takes names out of the list that it walks through
--                 counts its position, on fuel that is the number of names. Listed and Added are
--                 about the keys that are found, RoundTrip about lines.
--   SshConfig     paramiko/config.py: State is the blocks of a configuration and the options of a
--                 host, with what is asked of the system as a record, Parsing is `parse` with the
--                 regular expression of a setting written out, Tokens is `_tokenize` and
--                 `_expand_variables`, Matching is `_pattern_matches` and `_does_match`, Lookup is
--                 `_lookup`, `canonicalize` and `lookup`. Patterns is about the hosts that
--                 are meant, FirstValue about the value that is found for a keyword. The loop of `_get_matches` runs on fuel, the number of tokens.
--   Examples      runs at concrete inputs.
--
-- Concurrency: a method that holds its object's lock throughout is one step, and so are the two
-- halves of a method around a wait. A run of steps in any order is then any interleaving of the
-- threads, as far as the state behind the lock goes.
-- Two things are coarser than that: `recv` takes the lock of its pipe and then that of the channel,
-- and is one step; and a wait is limited by the timeout that is set when it ends, not by the one that
-- was set when it began.
--
-- Numbers: Python's integers are natural numbers here where the code keeps them from going
-- below zero, and `ℤ` where it does not; `& 0xffffffff` is the remainder by 2 ^ 32.
--
-- Not modelled: OS pipes (`fileno`), logging, the threads themselves, key files and
-- cryptography, which the code takes from other packages, GSS-API, the agent, and the SFTP layers
-- but for the attributes, since they are input and output, or calls of other packages, for the
-- most part.
-- Text is left as bytes: UTF-8 decoding and its errors are not described. The activation of the
-- ciphers, the side of a client in an authentication, and the engines of the key exchange are
-- not modelled. Nor are the calls of the application on a transport
-- (`open_channel`, `global_request`, ...), which would add steps to those of its thread.
pub mod Base
pub mod Wire
pub mod LongInt
pub mod Message
pub mod BufferedPipe
pub mod Channel
pub mod Packetizer
pub mod Auth
pub mod Transport
pub mod Sftp
pub mod BufferedFile
pub mod HostKeys
pub mod SshConfig
mod Examples
