-- ===== src/Lib.antt =====
-- The network layer, the info strings, the commands, the console variables, the names of files and
-- the form data of the CoD4X client.
--
-- Bytes are numbers below 256 in lists. A C `int` that may wrap or be negative is its 32-bit
-- pattern (Common/Word); a size, a position or a counter that only grows is a plain number.
--
-- Msg        src/msg.c: the buffer `msg_t` and the functions that write it. Msg/Read: those that
--            read it. Msg/Bounds, Stream, Fields, Text, Bitstream and Entity: what they do.
-- Net        src/net_chan.c: addresses, the loopback buffers, `NET_SendPacket`, the wrappers for
--            the legacy address and out-of-band packets. The socket of the system is a parameter:
--            what it answers to a packet. Net/Queue: the loopback buffer as a queue. A packet that
--            is longer than the storage of a loopback message is recorded, and the array is not
--            modelled from then on.
-- NetChan    src/net_chan.c: `Netchan_Setup`, `Netchan_Process`, `Netchan_TransmitNextFragment`,
--            `Netchan_Transmit`, and the loop of `CL_WritePacket` (src/cl_main.c). It reads and
--            writes its headers by Msg and sends by Net. NetChan/Order, Packet and Reassembly:
--            what it does. NetChan/Cipher: the scrambling of src/cl_netchan.c; Keystream: the bytes
--            that it mixes in.
-- Reliable   src/net_reliabletransport.c: the windows, their buffers and rates. Reliable/Transmit,
--            Receive and Send: the two directions. Reliable/Ring, SendLoop, Resize, Deliver,
--            Ranges, Acklist and Invariant: what they do. The allocator is a parameter.
-- Text       src/qshared.c: comparison, bounded copies, colors, trimming and searches on C strings.
--            Text/Compare, Buffer and Colors: what they do. Text/Xml: `XML_Escape`.
-- Info       src/qshared.c: the info strings, whose keys Text compares. Info/Lookup: the list of
--            pairs that a string holds. Info/Update and Calls: its updates; Fast: those of
--            `FastInfo_SetValueForKey`.
-- Cmd        src/cmd.c. Cmd/Table: the lists of commands; Refine: as a table by names. Cmd/Tokens:
--            the tokenizer; Start, Pool and Bounds: what it does. Cmd/Args: the stack of tokenized
--            strings and `Cmd_Argsv`, which writes by Text; Nesting, Printed, Argsv and RoundTrip:
--            what they do.
-- Cvar       src/cvar.c: the domains of console variables and `Dvar_SetVariant`, which changes them.
--            How floats compare is a parameter. Cvar/Domain, Protect and Latch: what it does.
-- Client     src/cl_main.c: `CL_ReceiveReliableMessages`, which takes messages off the stream of
--            Reliable, with `clear` and the test of the connection's state. Its static `msg` is
--            modelled from the first call with `clear` on, which gives it its storage.
--            Client/Frames and Stuck: on any stream; Client/Channel: on the receive window.
-- Huffman    src/huffman.c: the coder of whole messages, with the pointers of its nodes as places in
--            a list. Huffman/Table: the statements of `Huff_InitTree`, as data; Build: what they do.
--            Huffman/Tree: the tree that they build; Bits and Codes: the bits of bytes in it;
--            Ends: the expansion of any bytes; RoundTrip: of bytes that were compressed.
-- Files      src/files.c: how names of files are compared, hashed and cleaned. Files/Compare,
--            Sanitize and Kept: what they do.
-- Http       src/httpftp.c: the codes of URLs and forms. Http/Url, Coded, Form, Create and Posted:
--            what they do. Http/Clients: the table of connections. Http/Send: the data that waits
--            for the socket; Sent: what the calls leave of it.
--            What the network answers and the allocator are parameters.
-- Common     Boolean tests, lists by native indices, words, bytes in memory and bits.
--
-- The walks in the Huffman tree run on fuel, the number of nodes, which is enough as a parent stands
-- behind its children in the list; the reader's loop on the room of its output.
-- The loop of `CL_WritePacket` runs on fuel, as many rounds as the message has bytes: a round sends
-- 1300 bytes or is the last. A round of the loops over an info string takes a backslash, and one of
-- the tokenizer's loop over comments a comment, so that the length of the text bounds both.
-- `Dvar_SetVariant` calls itself once at most, for the reset value of an enumeration, if that lies
-- in its domain. A round of `CL_ReceiveReliableMessages` but the last executes a message, and a
-- round for each is enough. The other loops are structural.
--
-- Not modelled: the delta coders of msg.c and the functions on floats, name resolution, the
-- command buffer and files that commands run, the opening of files, the requests of the
-- download client, what a reliable message does, what is printed, and null pointers that
-- callers pass. Freeing memory has no counterpart, and a string of a console variable is its
-- text, whoever shares its memory.
pub mod Common
pub mod Msg
pub mod Net
pub mod NetChan
pub mod Reliable
pub mod Text
pub mod Info
pub mod Cmd
pub mod Cvar
pub mod Client
pub mod Huffman
pub mod Files
pub mod Http
