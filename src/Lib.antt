-- ===== src/Lib.antt =====
-- The C code of AppCard, an iOS app: the serialisation that its Firebase libraries are built on.
--
-- nanopb (AppCard/Pods/nanopb) encodes and decodes protocol buffer messages. Its encoders write to
-- an output stream, a record with a callback, a size limit and a byte count; its decoders read from
-- an input stream, a record with a callback and the number of bytes left. A field encoder reads a
-- value of a C structure and a field decoder stores one; a length-prefixed field is decoded from a
-- substream, which ends where the field does. The base 64 coder (AppCard/Pods/FirebaseDatabase/
-- FirebaseDatabase/Sources/third_party/SocketRocket/fbase64.c) stands alone.
--
-- Which file models what:
--   Base          library names, Boolean tests, lists, bits, and Run, the outcome of a C function
--                 that returns bool and updates an object: ok, failed, fault (an access outside an
--                 object) and stuck (a loop of the model without fuel)
--   Nanopb/Pb     pb.h, as this build configures it: PB_FIELD_32BIT, PB_ENABLE_MALLOC, 64-bit
--                 integers, error messages on
--   Nanopb/OStream, Nanopb/IStream, Nanopb/Substream
--                 the streams and single values of pb_encode.c and pb_decode.c; a function of C
--                 keeps its name (pb_write, pb_encode_varint, pb_read, pb_decode_tag, ...)
--   Nanopb/FieldIter
--                 the iteration over descriptor tables of pb_common.c
--   Nanopb/Memory bytes at addresses, and numbers in little-endian order
--   Nanopb/Encoders, Nanopb/Decoders
--                 the field encoders and decoders (pb_enc_varint, pb_dec_string, ...)
--   Nanopb/Environment
--                 the descriptor tables, callbacks and extensions behind the addresses in a message
--   Nanopb/Default, Nanopb/MessageEncoder
--                 the message encoder of pb_encode.c: arrays, fields of every kind, extensions,
--                 submessages, pb_encode and the functions around it. MessageEncoder/Wire gives the
--                 bytes that a message stands for, if it can be encoded, apart from streams
--   Nanopb/Runtime
--                 what the decoder finds outside the program: tables, functions of the user, realloc
--                 and free, and where its counter of a fixed array stands on the stack
--   Nanopb/SetDefaults, Nanopb/Release
--                 the default values of a message's fields, and the release of allocated fields
--   Nanopb/DecodeField, Nanopb/DecodePointer, Nanopb/DecodeExtension, Nanopb/MessageDecoder
--                 the message decoder of pb_decode.c: static and allocated fields, callbacks and
--                 extensions, the loop of pb_decode_noinit, pb_decode and the functions around it
--   Base64        f_b64_ntop and f_b64_pton
--   Tests         runs of the definitions, and the theorems at concrete inputs
-- Below these stand the proofs, in files named for what they prove.
--
-- State: a buffer stream's pointer is the list of the bytes written so far, or still to read. A
-- pointer into memory is an address, 0 for NULL; a signed number is its bit pattern. A w-bit number
-- wraps as in the source. `realloc` and `free` are not the program's and are parameters; so is a
-- callback of the user. A function that is recursive through messages inside messages takes the
-- function for the inner message as an argument.
--
-- Bounds and fuel: the buffer of pb_encode_varint holds 10 bytes, which a 64-bit number never
-- exceeds. The loop of pb_decode_varint has fuel 11, one round more than its own limit. The loops
-- of pb_decode_varint32_eof and pb_skip_varint take a byte in each round, so their fuel is the
-- number of bytes left and 1. The loop of pb_field_iter_find has a round for each entry of the
-- table. The skipping loop of pb_read takes 16 bytes in each round, and its fuel is that share of
-- the count and 1. A loop over a table has a round for each entry. Messages inside messages have
-- the fuel `depth`, one for each level, and a list of extensions the fuel `links`, one for each
-- link; with less the wire format of a message is undefined. The decoder has the same fuel, and
-- `links` is also how often it calls a callback on one string. Its loops over the bytes of a stream
-- take a byte in each round, so that their fuel is the number of bytes left and 1.
--
-- The encoder does not change the message, so its memory is fixed. A function of the user is
-- assumed to write the same data to every stream it is given, as nanopb asks for, and `IsFaithful`
-- says so. A wire format with a length prefix is defined below 2 ^ 63 bytes, the largest object.
--
-- A callback of the user that a stream has changes the state of the stream and returns its result; it
-- does not set the error message of the stream. Memory is total: an address that points to no object
-- is read and written like any other, and nothing is stated of the blocks that a release frees.
--
-- Not modelled: generated tables, which are arguments; builds of nanopb with other options; the
-- Objective-C, C++ and Swift code, which is glue around system frameworks or not the app's own.
pub mod Base
pub mod Nanopb
pub mod Base64
pub mod Tests
