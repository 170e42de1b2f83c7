-- ===== src/Lib.antt =====
-- A model of the core of EncFS, an encrypted file system for FUSE: the coding of file names and paths,
-- the cipher that both names and files use, and the layers that a file's bytes go through.
--
-- How the parts interact. A path of the user is coded name by name (encfs/NameIO.cpp) by one of the name
-- coders (encfs/StreamNameIO.cpp, encfs/BlockNameIO.cpp), each of which takes a MAC of the name, codes it
-- with a cipher (encfs/Cipher.cpp, encfs/SSL_Cipher.cpp, encfs/NullCipher.cpp) and spells the bytes as
-- characters (encfs/base64.cpp). A file's bytes are read and written in blocks through a cache
-- (encfs/BlockFileIO.cpp); a layer below may add a header with a MAC to each block
-- (encfs/MACFileIO.cpp), the next codes each block with a vector of its own (encfs/CipherFileIO.cpp), and
-- the last calls the system (encfs/RawFileIO.cpp), each over the interface of encfs/FileIO.h. The nodes
-- that are open and their handles stand in the tables of encfs/Context.cpp, which also counts the cycles
-- without use. Keys lie in the buffers of encfs/MemoryPool.cpp, and old configuration files are read
-- through encfs/ConfigVar.cpp and encfs/ConfigReader.cpp. The registries choose coders and ciphers by versioned interfaces
-- (encfs/Interface.cpp).
--
-- The files:
--   Base        shared names, lists and slices over native numbers, the bit operations of words, numbers
--               as bytes.
--   Base64      encfs/base64.cpp and encfs/base64.h: changeBase2, changeBase2Inline, the alphabets of
--               names in base 64 and 32, B64StandardEncode and B64StandardDecode.
--   Cipher      encfs/SSL_Cipher.cpp. Mix has shuffleBytes, unshuffleBytes and flipBytes; Evp is OpenSSL,
--               a record of functions with its documented behaviour as laws; Ssl has the vectors, the
--               MACs, the coding of streams and blocks, readKey and writeKey; Ops is the class Cipher as
--               an interface with laws, which SSL_Cipher and NullCipher fill.
--   NameIo      Stream and Block are the two name coders; Path is recodePath, encodePath and decodePath
--               over either of them, through an interface of the two name functions.
--   BlockFile   encfs/BlockFileIO.cpp: the cache of one block, read, write, padFile and truncateBase, over an
--               interface of the virtual functions readOneBlock, writeOneBlock and getSize, whose laws relate
--               states and files.
--   MacFile     encfs/MACFileIO.cpp: places with headers and without, readOneBlock and writeOneBlock.
--   CipherFile  encfs/CipherFileIO.cpp: the header with the vector of a file, the coding of one block,
--               setIV, and the header that a reverse file system shows. Header, Code, Block, Write, Move and
--               Reverse prove; Block says which file a state stands for; Layer puts the cache of BlockFile
--               on top, and Shown does in reverse.
--   FileIo      encfs/FileIO.h: the class as a record of functions, and what a layer relies on.
--   RawFile     encfs/RawFileIO.cpp over the calls of the system, a record of functions with their
--               documented behaviour as laws.
--   Context     encfs/Context.cpp: the tables of open files and of handles, and the idle monitor with its
--               loop in encfs/main.cpp.
--   ConfigVar   encfs/ConfigVar.cpp and encfs/ConfigReader.cpp: numbers, strings and variables in a buffer.
--   MemoryPool  encfs/MemoryPool.cpp: the buffers that are handed out and taken back.
--   Interface   encfs/Interface.cpp: the comparisons of versions.
--
-- How state and failure are modelled. Bytes and characters are native numbers below 256, a buffer is the
-- list of its bytes; 32-bit and 64-bit words wrap around by an explicit remainder. An Error that is thrown
-- (also by rAssert) and a failed CHECK are none; a negative result of a file function is fail with the
-- error's code. A pointer to a chained vector is an Option, and what the call leaves behind it stands in
-- the result. A file's state is passed along explicitly. The states that operations reach in
-- any order are a step relation (RawFile/Life, Context/Life, MemoryPool/Life); a lock that the source holds
-- for the whole of an operation makes it one step.
--
-- Fuel. changeBase2Inline takes the number of digits that the source can hold, recodePath the length of
-- the path, and BlockFileIO::read and write the size of the request, each plus one: every turn of these loops
-- consumes a digit, a character or a byte, and the results below include that the fuel is enough. So does
-- RawFileIO::write, with the number of its bytes. The loop of initHeader that asks for a vector runs over
-- the answers of randomize, which are part of the state.
--
-- Not modelled: OpenSSL itself, the derivation of keys from passwords and random keys, the registries,
-- the truncation of CipherFileIO and MACFileIO, which call truncateBase, MACFileIO as the layer below
-- BlockFileIO, the trees of directories (DirNode, FileNode), the files and dialogues of a configuration,
-- and the FUSE entry points and command line programs. Sums of sizes are unbounded, while the code has
-- off_t and size_t, and offsets are never negative.
pub mod Base
pub mod Base64
pub mod BlockFile
pub mod Cipher
pub mod CipherFile
pub mod ConfigVar
pub mod Context
pub mod FileIo
pub mod Interface
pub mod MacFile
pub mod MemoryPool
pub mod NameIo
pub mod RawFile
