-- ===== src/Lib.antt =====
-- Verification library of DeMoD.
--
-- The parts of the program and the files that model them:
--
-- * The embedded database, src/db/streamdb.c: `StreamDb`. A trie over the bytes of the keys, last
--   byte first. `StreamDb/Types` has the nodes and the database record, `Keys` the order in which a
--   key is read, `Find`, `Insert`, `Delete`, `Iterate` and `Search` the operations with the lemmas
--   on each, `Measure` what the counters should say, and `Contract` the map that a database stands
--   for. The children of a node are a function of the byte, a null pointer is `Trie.null`, and the
--   nodes are a tree, since each is owned by one parent. `calloc` and `malloc` take their outcomes
--   from a list (`Mem`), so that every failure path runs. All operations hold the mutex from
--   beginning to end, and a step of the model is such a critical section. A null `db` is refused
--   by each operation before anything else, and is left out. `Serialize` is the stack machine that
--   writes a trie, `Flush` the file around it, and `Depth` the bound on the levels. The serializer
--   takes the number of rounds as fuel; `rounds` of the trie are enough. The calls of `fwrite`,
--   `fopen`, `fclose`, `DeleteFileA`, `rename` and `remove` take their outcomes from the model's `Out` and
--   `Disk`, as allocations do; `Disk` also says whether STREAMDB_WINDOWS is defined, and has the digits of
--   the process for the temporary file's name, which is cut to 1099 bytes. Two paths with the same bytes
--   name one file, and all others are taken to name different files. `Serialize/Ends` shows that the
--   serializer ends whatever fails, `Flush/Durable` is about what reaches the file, and `Flush/Refused`
--   about a flush that fails.
--   `Input` has the reads of a file's bytes and `Deserialize` the loop that builds a trie from them.
--   Its fuel is `rounds_for` the input, two for each byte and one more: a round either reads a byte
--   or takes an entry off the stack, and a byte adds at most one entry. `Stored` is what the file
--   format can hold. `Open` has opening, closing and a round of the flushing thread, `Reopen` and
--   `Durable` follow a database through the file, `Kept` has what each operation keeps, and `Steps`
--   interleaves them with the thread. The wrappers over the mutexes and threads of the platform are
--   left out.
-- * The rings and buffers that the audio processes share, audio-stack/ipc/include: `Ipc`. `Spsc` is
--   the ring of demod_spsc.h, with `Window` for the samples between two indices and `Refine` for
--   the queue that a ring stands for; a call is one step there. `TripleBuf` is demod_triple_buf.h,
--   with `Fields` for the state word and `Ownership` for all interleavings of the two sides' steps.
--   There an atomic instruction is a step, and so is a read: the producer never clears the dirty
--   flag, so a read that has seen it may count as one exchange. A compare-and-exchange loop ends
--   with one that succeeds, and only that one has an effect. Memory is sequentially consistent.
-- * The MIDI input, src/input/midi_input.c: `Midi`, with `Queue` for the ring of messages, and
--   `Voice` and `Stream` for the byte parser. What `read` returns is an argument of `poll`: one list
--   of bytes for each call.
-- * The serial encoder, src/input/serial_encoder.c: `Encoder`, with `Token` for the queue and the open
--   word and `Words` for streams of words and symbols. `Ring` is the ring of 256 entries that it and
--   the MIDI input keep.
-- * Fonts, src/core/font.c: `Font`. `Utf8` has the decoder against RFC 3629, `Forms` and `Strict` what
--   it accepts, `Text` the loops over a text, and `Blob` the bounds of the extended glyphs. A read outside of the
--   blob is a value of its own. The environment and the files are an argument, and the loops over a
--   text have its length and one more as fuel, which is enough. `Drawing` draws on the framebuffer, `Pictures` is about the choice of a
--   glyph, and `Pen` about whole texts. A font with its bitmap is an argument.
-- * The bit codes of quanta, quanta/include/qbits.h, with the columns of quanta/src/pack.c: `Qbits`.
--   `Writer` and `Reader` are about single bits and numbers, `Rice` about the Rice code, `Columns` and
--   `RoundTrip` about columns, and `ZigZag` about the map of signed numbers. The loop of `rice_get` has 48 rounds as fuel, since it ends with its 48th
--   one.
-- * The software rasterizer, src/core/framebuffer.c and include/demod/framebuffer.h: `Framebuffer`, with
--   the colours, rectangles, the frame and the operations on rows and columns. `Lines`, `Blits`, `Rounded`,
--   `Scaled`, `Triangles` and `Curves` below it have the other operations. An `int` is an integer without
--   bounds, since the overflow of one is undefined. `Floats` is a parameter, a type of floating-point
--   numbers with its operations and no laws. The memory is a function of the index, so that a write
--   outside of the frame would be seen. The source of a blit is another framebuffer than its
--   destination. `dm_fb_line` has the two distances and one more as fuel, and `dm_fb_stroke_circle` the
--   radius and two more; `none` is a loop that runs out of it. `Loops` is about counting loops,
--   `Regions` about rectangles, `Clipping` and its files about what each operation leaves, `Painted` about
--   what a row paints; `Sessions` has the calls as data,
--   `Drawings`, `Memory`, `Painting` and `Clearing` the results.
-- * `Prelude` has the lists, tests, loops and machine words that the parts share.
--
-- Recursion is structural everywhere: on the path of a key, on the trie, or on the rounds left of
-- a loop.
pub mod Prelude
pub mod StreamDb
pub mod Ipc
pub mod Ring
pub mod Midi
pub mod Encoder
pub mod Font
pub mod Qbits
pub mod Framebuffer
