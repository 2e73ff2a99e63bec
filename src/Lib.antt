-- ===== src/Lib.antt =====
-- Verification of the core logic of imgeditor, a tool that recognises, lists, unpacks and packs
-- binary images: disks, file systems and the images of boot loaders.
--
-- An editor plugin per image format looks at a file (detect), and lists or unpacks it. What the
-- plugins share is in the core, and the development models these parts of it:
-- * Bitmask models bitmask.c and bitmask.h, the bit sets on which file systems keep their free
--   blocks. `struct bitmask` is the record Bitmask, every function is the definition of its name, and
--   Bitmask.Iterator is the iterator behind the macro bitmask_foreach_continue.
-- * Partitions models disk_partition.c, the table in which the disk formats register what they find
--   and in which main.c looks an address up. The table is the part of `struct global_data`
--   (gd_private.h) that the file uses, passed from call to call.
-- * Crc models libs/crc/libcrc.c, libs/crc/libcrc.h and crc32.c. Crc.Width has the functions that the
--   source writes once for 32 and once for 16 bits, Crc the two instances, Crc.Predefined the tables
--   of algorithms and crc32. Crc.Serial states the CRC as a register that takes a bit at a time.
-- * Mbr models disk/mbr.c: the entries of a sector, the chain of extended tables, and mbr_detect,
--   which registers its partitions with the definitions of Partitions. Mbr.Chain states the chain as
--   a relation between a disk and the partitions that it lists.
-- * Rc4 models rc4.c, the cipher that imgeditor.h offers to the plugins. Rc4.Standard states the cipher
--   on permutations.
-- * Editors models the registry of exported editors in gd.c.
-- * Strings models the inline functions of string_helper.h, with `isspace` as a parameter, and
--   Strings.Replace string_replace_in_buffer of string_helper.c.
-- * Dd models dd.c, the copy with which the editors read and write stretches of files.
-- * Sparse models android/android_sparse.c: the writer, which lists the runs of a bit set of Bitmask,
--   and in Sparse.Unpack the reader, which copies with Dd. Sparse.Plan states what an image stands
--   for and Sparse.Print its bytes, Sparse.Reader and Sparse.Finish follow the chunks on either side.
--   Sparse.Digest and Sparse.Listing are `asparse list`, with and without the word sha1sum.
--   The reader seeks with lseek for a header and dd64 with fileseek for the data: on a virtual file
--   these are two places, so Sparse.Unpack has a `read` for each.
-- * Uenv models the search of u-boot/uenv.c for the size of an environment, a copy of Dd with the
--   crc32 of Crc as its scanner.
-- * VirtualFiles models virtual_file.c, the table of the descriptors that stand for a part of a file.
--   VirtualFiles.Reached has its operations as steps from the empty table.
-- Common has the lists, numbers and bits that the parts share.
--
-- A function that changes an object takes it and returns it. A null pointer or a failed allocation
-- is `none`. Machine words are natural numbers with the reduction modulo their size written where
-- the source computes them. Undefined behaviour is an answer of its own: `none`, or out_of_bounds.
--
-- Bounds and fuel. bitmask_foreach_continue runs on a fuel of one round more than the mask has bits,
-- which is enough since every round begins at a later bit. mbr_foreach_extended runs on a fuel that
-- counts the tables read; as many as the chain has are enough, and a chain without an end has no
-- fuel that is. dd_loop and VirtualFiles.read_loop run on one round more than there are bytes, since a
-- round reads a byte or ends the loop, and Uenv.size_loop on one more than the size, which gets
-- smaller in every round. Strings.Replace.replace_loop runs on one round more than the string is long,
-- since a round passes a token; an empty token has no fuel that is enough. Bit numbers are `int` in
-- the iterator, so a well-formed mask has fewer than 2^31 bits. File positions are 64 bits wide and do
-- not wrap.
--
-- Parameters. A file is its `read` and `write` at a position, and what `open` and `dup` return is an
-- argument. A disk is a function from an offset to the sector that is read there, `decimal` is the
-- conversion %zu of the C library, the hash of Sparse.Digest takes its bytes in pieces, and whether
-- memory is given out is a Boolean argument.
--
-- Not modelled: the file systems, gpt, the device tree, the Android boot images, the packing and
-- listing of u-boot environments, the ini and JSON helpers, the command line, and all printing but
-- the values in the lines of Sparse.Listing. The option parser libs/libxopt is not
-- modelled, nor are the directories libs/minilzo and those of libs/hash, which hold copies of other
-- projects. Of libs/hash/hash_compatible.c Sparse.Digest has the cut to the size of the buffer.
pub mod Common
pub mod Bitmask
pub mod Partitions
pub mod Crc
pub mod Mbr
pub mod Rc4
pub mod Editors
pub mod Strings
pub mod Dd
pub mod Sparse
pub mod Uenv
pub mod VirtualFiles
