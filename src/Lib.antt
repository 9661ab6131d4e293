-- ===== src/Lib.antt =====
-- A model of the core of skate, a C++ header library of containers, encodings and input/output, and
-- proofs about it. All paths are from the root of the repository.
--
-- The parts and how they interact:
-- - skate/containers/abstract_list.h defines the results that every parser and writer returns: how it
--   ended, where the input stands and the output iterator. Results.antt has them as records.
-- - skate/containers/utf.h classifies ASCII characters and converts digits (Ascii.antt: Digit, Case),
--   and encodes and decodes Unicode (Utf.antt: Unicode for the class unicode, Encode, Decode). The
--   adapters call both.
-- - skate/io/adapters/core.h has the helpers of the adapters. Endian.antt and
--   EndianDecode.antt model the encoders and decoders for big and little endian numbers, Hex.antt
--   hex_encode and to_hex, and Number.antt int_decode (Decode), int_encode (Encode), fp_decode and
--   fp_encode (Floating), which convert digits by utf.h.
-- - skate/io/adapters/base64.h: Base64.antt, with the two alphabets (Alphabet), the encoding iterator
--   (Encode) and base64_decode (Decode).
-- - skate/io/adapters/json.h: Json.antt, with json_escape, its iterator and write_json of a string
--   (Escape), read_json of a string (ReadString), the class basic_json_value with its arrays and
--   objects and the options (Value), write_json of a value and to_json (WriteValue), and read_json of
--   a value and from_json (ReadScalar for words and numbers, ReadValue). They go through utf.h and
--   core.h. Text.antt says what a value is written as, and Steps.antt names the steps of the reader
--   for the proofs.
-- - skate/io/adapters/csv.h: Csv.antt, with the options, the escaping and its test (Options) and the
--   writers of scalars, rows, documents and objects (Write). The library has no reader in use, so
--   Reader.antt states the rules of RFC 4180 as the specification of what is written.
-- - skate/containers/split_join.h: SplitJoin.antt (Defs), with find and substr of the standard library
--   written out for the strings that split looks through.
-- - skate/io/buffer.h: IoBuffer.antt models the class io_buffer: its state and writes (Defs), its reads
--   (Read), and a queue with a limit that serves as its specification (Queue).
--
-- - io_threadsafe_buffer, io_threadsafe_pipe and their guards, of the same file: ThreadBuffer.antt, with
--   what each member function does while it holds the mutex (Defs), the threads that are ready or wait
--   on a condition variable and their steps (System), the pipes with their guards (Pipe), and what closing a guard does (Guard). They use
--   the operations of IoBuffer.antt.
-- - skate/containers/sparse_array.h: SparseArray.antt, with the entries of its map (Chunk), the class
--   (Defs), its invariant and what the chunks hold (Invariant), and a map of indices as its
--   specification (Refine).
-- - the class url of skate/socket/address.h: Url.antt, with percent coding (Percent), the class with its
--   setters and the writers of its parts (Defs), and how it is written and read as a whole (Text). It
--   goes through utf.h and split_join.h.
--
-- How the code is modelled. A pair of iterators is the list of what lies between them, an output
-- iterator is the list of what has been written, and a member function that changes its object returns
-- the new object beside its result. Characters and bytes are natural numbers; where the code narrows
-- an integer the model takes the remainder. Overloads have names of their own, and the sizes of
-- characters, which select an overload, are the type CharSize. An output iterator of a range decoder
-- is any type with a function that takes a character, so that transcoding is decoding into an encoder.
--
-- Loops over an input are structural recursions where a round reads one unit, and otherwise recursions
-- on fuel, with the length of the input as fuel: each round reads at least one unit. The readers of
-- JSON values call each other on one supply of fuel, which from_json sets to twice the length of the
-- input and one. That this is enough is part of the theorems about them, which state the result
-- itself. The loop of csv_requires_escaping may read nothing, so that its fuel stays an argument.
--
-- A std::map of chunks is the list of its entries in the order of their keys; upper_bound is a search
-- from the front, and an iterator is a place in the list. Keys of sparse_array are of type size_t, the
-- default, with their wrap-around. A reference that ref returns is a function that the caller applies
-- to the element. The fuel of the loop of unstore(first, last) is more than the number of chunks, of
-- which each turn removes one.
--
-- The threads of a buffer are the calls in progress. Each step is the turn of one call that gets the
-- mutex, from there to its return or its wait, or a wake-up without reason, or one of the calls that
-- do not wait; notify_one wakes any one of those that wait. The numbers of producers and consumers are
-- unbounded.
--
-- Parameters: std::vector is a record of its maximal size and its growth (IoBuffer/Vector.antt), of
-- which only that the size is below 2 ^ 63 is used. What lies behind the table of char_digit is the
-- parameter `beyond` of the functions that may read past it. The predicate of io_buffer::read is a
-- function that also passes on a state. The floating point type with strtod, snprintf and what the
-- source asks of <cmath> is the record FloatLibrary of Number/Floating.antt, of which nothing is
-- assumed.
-- The class network_address, which wraps the addresses of the operating system, is the record
-- NetworkAddress of Url/Defs.antt, and the decimal text of a port, from std::to_string, is a function;
-- nothing is assumed of them.
--
-- int_encode and int_decode have two implementations, chosen by the version of the language; the model
-- has the one that is written out in the source, not the calls of std::to_chars.
--
-- Not modelled: the addresses, the sockets and everything that calls the operating system, logging, time and the
-- wrappers of other libraries; moved-from elements, exceptions and allocation failures of the vector;
-- reads of the thread-safe buffer with a predicate; shrink_to_fit and the iterators of sparse_array;
-- set_query of a key and a value, and the getters, of url; the line that set_path of url prints;
-- output iterators of the reads of io_buffer that do not append;
-- tuples and streams of JSON and the accessors of its classes; arrays of objects, objects of arrays,
-- tuples and streams of CSV; the adapter for XML. The adapter for MessagePack, the readers of CSV and
-- a part of the adapter for XML are disabled by the preprocessor.
pub mod Prelude
pub mod Results
pub mod ThreadBuffer
pub mod Url
pub mod Utf
pub mod Base64
pub mod Csv
pub mod SparseArray
pub mod SplitJoin
pub mod IoBuffer
pub mod Ascii
pub mod Endian
pub mod EndianDecode
pub mod Hex
pub mod Json
pub mod Number
