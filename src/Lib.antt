-- ===== src/Lib.antt =====
-- BR-Archive: the codecs, the checksum, the files, the directory tree and the archives of the archive
-- library, and its programs, src/ of the repository.
--
-- Parts and files:
--   Prelude        numbers, lists, the results of C code (Prelude/Results), functions on a state
--                  (Prelude/Actions) and what holds of the state that they leave
--                  (Prelude/Leaving), and the laws of exclusive or on words (Prelude/Xor)
--   Bwt            encoders/bra_bwt.c: suffix_compare is bwt_suffix_context_compare, and encode,
--                  encode2, decode, decode2 are the functions of those names behind bra_bwt_.
--                  Bwt/Order and Bwt/Cycles are about the rotations, Bwt/Sorted about what a sort
--                  gives, Bwt/Counting and Bwt/Transform about the decoder's arrays
--   Mtf            encoders/bra_mtf.c: init_table, encode_symbol, decode_symbol, encode, encode2,
--                  decode, decode2 stand for mtf_init_table to bra_mtf_decode2
--   Rle            encoders/bra_rle.c: detect_run, encode_compute_size, encode, decode_compute_size,
--                  decode stand for the functions of those names behind bra_rle_ and _bra_rle_
--   Huffman        encoders/bra_huffman.c: Huffman/Heap is the queue, Huffman/Tree builds the tree,
--                  Huffman/Canonical has the code lengths and codes, Huffman/Codec the bit streams
--   Crc32c         utils/lib_bra_crc32c.c: crc32c_table, crc32c_combine and the GF(2) matrices;
--                  Crc32c/Lookup has the table, Crc32c/Sse the version over the SSE4.2 instructions
--   Io             io/lib_bra_io_file.c: an open file with its bytes and position, and the functions
--                  on it. Io/Words is how words lie in a file, Io/Sfx the self-extracting archive's
--                  magic, and the footer, of which Io/Footer has the laws
--   Io/Entries     io/lib_bra_io_file_meta_entries.c, and the entries of lib_bra.c;
--                  Io/Entries/Flush is flush_entry_file, and Io/Entries/Format has the bytes of
--                  an entry
--   Io/Chunks      io/lib_bra_io_file_chunks.c: the chunk header; Io/Chunks/Copy is the stored copy,
--                  Io/Chunks/Codec the coding of a chunk, Io/Chunks/Files bra_io_file_chunks_ with
--                  compress_file, decompress_file and read_file
--   FileNames      lib_bra_private.c: validate_filename and compute_header_crc32 are the functions of
--                  those names behind _bra_
--   TreeDir        utils/bra_tree_dir.c: create, add, insert_at_parent, parent_index_search,
--                  reconstruct_path and destroy are the functions of those names behind
--                  bra_tree_dir_. TreeDir/Invariant, TreeDir/Chains and TreeDir/Siblings say which
--                  links are in order, TreeDir/Placing how far a path is there
--   Fs             fs/bra_fs.cpp: FileSystem and Paths are what it uses of std::filesystem, and
--                  try_sanitize, dir_is_sub_dir and the names of archives are there. Fs/Files has
--                  the functions on files (size_of is file_size), Fs/Overwrite the question whether
--                  to overwrite. Fs/Memory is a file system for the tests
--   Archive        io/lib_bra_io_file_ctx.c: opening, headers, closing and the reading of an entry;
--                  ctx_open, sfx_open, ctx_close and the like are the functions behind
--                  bra_io_file_ctx_ and bra_io_file_. Archive/Writing puts entries into an archive,
--                  Archive/Extracting extracts, lists and tests them
--   Programs       prog/bra.cpp, prog/unbra.cpp and prog/bra_sfx.cpp from run_prog on: Programs/Bra
--                  archives, Programs/Unbra extracts
--
-- The compressor takes a chunk through Bwt, Mtf, Rle and Huffman, the decompressor back; both run over
-- the files of Io and the entries of Io/Entries, whose checksum is of Crc32c. An archive is a header
-- and entries; Archive takes a file of Fs through Io/Entries/Flush into it, and back, and keeps the
-- directories in a tree of TreeDir. The programs open an archive and go over its entries.
--
-- A buffer is a list of numbers, and a position in it the list of the bytes from there on. Words
-- are numbers with their wrap-around written out. `Outcome` says how a C function ends: `done`,
-- `failed` for a reported failure, `fault` for an access outside an array or a failed assertion, and
-- `stuck` for a model loop without fuel or a C loop that does not end. `Step` says the same of a
-- function on a state: `ok`, `refused`, `invalid`, `endless`. malloc is a function from the size to
-- whether it succeeds, and fwrite one from the number of bytes. The C library's sort is a parameter,
-- with what is documented of it as `Bwt.Sorted.Sorts`; what is documented of std::filesystem's paths
-- is `Fs.Sanitizing.IsStandard`.
--
-- Fuel: a loop over blocks of a stream has the number of bytes in the buffer, and each block takes a
-- byte; a loop over chunks has the size of the data, and each chunk takes a byte; a walk through
-- the directory tree has the number of nodes, and each link leads to a later one or a parent
-- before. The loop of crc32c_combine takes two bits of a 32-bit length in a round and has 16 rounds.
-- flush_entry_file has 2 rounds, the second with an entry that is to be stored.
--
-- Not modelled: the log and all that is printed, with the compression ratio and the total size,
-- which are floats; the parsing of the programs' arguments; the searches and wildcards over
-- std::regex, and the sets of files that are built from them. The bytes of a file that is written
-- are on the disk when it is closed. The bytes of an archive that is read are those it has when it
-- is opened, so that an entry extracted over the archive's own file is not seen by what is read
-- after it. The dispatch of bra_crc32c is fixed to the table.
pub mod Prelude
pub mod Rle
pub mod TreeDir
pub mod Archive
pub mod Programs
pub mod Fs
pub mod FileNames
pub mod Mtf
pub mod Crc32c
pub mod Huffman
pub mod Io
pub mod Bwt
