-- ===== src/Lib.antt =====
-- Verification of the handlespace management of rsplib, an implementation of Reliable Server
-- Pooling (RSerPool). A registrar keeps pools of pool elements; a pool user asks for some elements
-- of a pool, and the pool's policy chooses them.
--
-- The parts and their files:
--   Storage            what the users of the ST_METHOD macros see of the leaf-linked red-black tree
--                      (src/redblacktree_impl.h): the list of its nodes in their order
--   RedBlackTree       src/redblacktree_impl.h itself, with the ring list of
--                      src/doublelinkedringlist.c: Insert is RedBlackTreeInsert, Remove and RemoveLoop
--                      are RedBlackTreeRemove. Shape and Sums hold the red-black properties and the
--                      value sums; Fixing and Rebalancing are about the loops of Insert and Remove;
--                      Inserting, Removing, Queries and Neighbors compare the operations with those of
--                      Storage
--   PolicySettings     src/poolpolicysettings.c, src/rserpool-policytypes.h
--   PoolElement        src/poolelementnode-template.h, src/poolelementnode-template_impl.h; Storages
--                      holds the orders of the handlespace's storages and the checksum
--   PoolPolicy         src/poolpolicy-template.h and src/poolpolicy-template_impl.h: the comparison
--                      functions (Compare, Dpf), the update functions (Update, Dpf) and the array of
--                      all policies (Table)
--   PoolNode           src/poolnode-template.h and src/poolnode-template_impl.h; Select holds the two
--                      general selection functions of src/poolpolicy-template_impl.h
--   HandlespaceNode    src/poolhandlespacenode-template.h and
--                      src/poolhandlespacenode-template_impl.h: the pools with the storages of their
--                      elements by timer, ownership and connection. Links holds the storages'
--                      entries, Elements and Registration the operations. Books lists the accounts
--                      of all elements (identifier, checksum, home registrar, timer, connection);
--                      the invariant says that counters and checksums are those of this list, and
--                      that the storages hold links of its elements only, the ownership storage of
--                      all with a home registrar, the connection storage of just those with a
--                      connection. Focus and Places take one pool or element out of the list,
--                      Distinct says that no two of its elements are the same; Runs is about
--                      sequences of operations. It uses PoolNode, whose operations change no account
--                      but those of their own element
--   Checksum           src/poolhandlespacechecksum.c
--   PoolHandle         src/poolhandle.c
--   TakeoverProcess    src/takeoverprocess.c
--   TimeStampHashTable src/timestamphashtable.c
--   IdentifierBitmap   src/identifierbitmap.c
--   Message            src/rserpoolmessage.c, src/rserpoolmessageparser.c and
--                      src/rserpoolmessagecreator.c: Tlv and Create hold the begin and the end of a
--                      parameter, unknown parameters, and the pool handle; Skipping is about the walk
--                      over parameters, PoolHandles and Creating about their layout
--   TagItem            src/tagitem.c: the size of a tag list, its copies and the filtered copy
-- Base holds names of the libraries and the helpers that the parts share.
--
-- Pool operations are functions on the record PoolNode: `add`, `update`, `remove` and `find` are
-- poolNodeAddPoolElementNode and so on. A failed CHECK, which ends the program, is the result
-- `none`; error codes are values. Counters wrap at their width, which is written out. The C type
-- `double` is a parameter, DoubleArith, of the policies that compute with it, and so are the random
-- numbers of the selection by value, a function from the number of the draw. The loop that finishes
-- a checksum runs on fuel for two rounds and the last test, and the loop over the parameters of a
-- message on fuel for a round on each byte. Other loops are
-- structural: those of the red-black tree go down a subtree, or up the nodes above one.
--
-- Not modelled: input and output, descriptions of data as text, memory allocation that fails, the
-- walks over the handlespace and its management layer, the other parameters of messages and the messages themselves, the
-- registrar and the API for pool elements and pool users.
pub mod Base
pub mod Checksum
pub mod Storage
pub mod RedBlackTree
pub mod PolicySettings
pub mod PoolElement
pub mod PoolPolicy
pub mod PoolNode
pub mod HandlespaceNode
pub mod PoolHandle
pub mod TakeoverProcess
pub mod TagItem
pub mod Message
pub mod IdentifierBitmap
pub mod TimeStampHashTable
