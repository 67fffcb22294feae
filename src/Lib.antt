-- ===== src/Lib.antt =====
-- The OSCAR protocol library of irssi-icq (irssi-icq/src/protocols/oscar): its wire format and the
-- state that the client keeps for a session; parts of the core that came with it
-- (irssi-icq/src/gaimglue); and the list of buddies of the irssi side (irssi-icq/src/core).
--
-- Base holds what the modules share: tests and lists over the native numbers.
-- Word models the macros aimutil_put* and aimutil_get* of aim.h, bytes against 8, 16 and 32-bit
-- numbers in both byte orders.
-- Bstream models bstream.c: a buffer with a cursor. An operation returns its C result and the new
-- stream. Pointers are not NULL and allocations succeed.
-- Tlv models tlv.c: a chain of type-length-value triples as a list. The reading loops of
-- aim_readtlvchain and aim_readtlvchain_len run on fuel, one unit for each round, and `none` says
-- that the loop was not yet at its end; the number of triples is enough for an encoded chain.
--
-- Util models the screen names and strings of items of util.c. A C string is the list of its bytes
-- before the NUL.
-- Ssi models ssi.c, the lists of items that the server stores: a list of records, with an address
-- in place of the pointer. Ssi/Numbers, Ssi/Items and Ssi/Deletion are about the numbers that a new
-- item picks, and the order of the lists; the search for a number has one round more than there are
-- items, enough where these are fewer than 65535. Ssi/Sync models aim_ssi_sync and
-- aim_ssi_addmoddel: the session's lists, the changes that wait for an acknowledgement, and the
-- requests handed over, each a value with the items that it carries. Ssi/Edit models the functions
-- that edit the local list and then call aim_ssi_sync, Ssi/Ack the acknowledgement, which settles
-- the changes and calls it again. Ssi/Wire models the bytes: the frame that aim_ssi_addmoddel
-- fills, and parsedata, which reads the lists that the server sends, with fuel of one round for
-- each item and each of its triples; Ssi/Wire/Push models the messages of changes that another
-- client made. `mem` stands for the content of fresh memory, `next` for the next address that
-- malloc returns, and `connected` for a connection of the family. The user functions that the
-- library calls are assumed to leave the stored information alone.
-- Snac models snac.c, the cache of the SNACs that wait for a reply: the array of chains is a
-- function from the index, and the time is an argument.
--
-- Flap models rxqueue.c and txqueue.c: the frames on the wire, sending and receiving over a socket
-- that moves the bytes in pieces, and the two queues. The socket's calls are parameters; aim_recv
-- and aim_send run on fuel of one round for each byte, which is enough since a call moves one byte
-- at least.
-- Dispatch models rxhandlers.c: the handlers of a connection and what aim_rxdispatch does with the
-- incoming queue; the functions that modules and clients register are parameters.
-- Conns models the list of connections of conn.c, and what the end of a connection leaves in the
-- queues.
-- Cookies models msgcookie.c, the list of cookies of messages.
--
-- Message models multipart messages of im.c; the loop that reads the parts has fuel of one round for
-- each byte, and a round takes one byte at least.
-- Caps models the capabilities of info.c; the loop of aim_getcap has fuel of one round for each byte
-- of `len`, of which it takes sixteen in a round.
-- Coding models base 64 and base 16 of gaimglue/util.c, and Privacy the permit and deny lists of
-- gaimglue/privacy.c, where the functions of glib on text are parameters.
-- Buddy models core/icq-buddy.c, the list of buddies and the file that keeps it; the loop over the
-- lines of a file has fuel of one round for each character, and a line has one at least.
--
-- Not modelled: aim_ssi_cleanlist and the authorisation messages; the rest of im.c; the frames of rendezvous
-- connections, the sockets and the settings of a session; the other families of messages; the
-- plugin glue (oscar.c), the rest of the core under gaimglue, the rest of the irssi side (core, fe-common) and the other
-- protocols.
pub mod Base
pub mod Word
pub mod Bstream
pub mod Tlv
pub mod Util
pub mod Ssi
pub mod Snac
pub mod Flap
pub mod Dispatch
pub mod Conns
pub mod Cookies
pub mod Coding
pub mod Privacy
pub mod Buddy
pub mod Caps
pub mod Message
