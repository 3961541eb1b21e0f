-- ===== src/Lib.antt =====
-- The core of an IEEE 2030.5 client: the data structures, the timed events, the event schedule
-- of the DER controls, the retrieval of resources, HTTP messages, URIs and addresses, the text
-- coding, the EXI and XML coding of values, the schema tables and the order of objects, and the
-- device identifiers of the C library in core/. Resources are retrieved over HTTP connections,
-- and completed when their requirements are. The client polls the event queue; an event names a
-- resource, a block of a schedule or a schedule, and the handler calls the schedule, which
-- inserts events in turn.
--
-- The files and the code:
-- - Base: tests on numbers, lists, integers and bits that the parts share.
-- - LinkedList: core/list.c and core/list_util.c. A list is the sequence of its items' data
--   pointers, or of the items' addresses where the list is intrusive. list_insert,
--   find_by_data, insert_unique, list_delete, list_subtract, list_intersect, list_union,
--   list_remove, insert_sorted, list_dup, list_cat, list_reverse, partition and quick_sort
--   keep their names; a loop that the source writes with a previous pointer has the list as
--   its caller sees it as an argument. quick_sort runs on the length of the list as fuel,
--   which is enough since each part is shorter.
-- - Queue: core/queue.c at the level of the next pointers, which are a function of the
--   address; Queue/Refinement relates it to lists.
-- - EventQueue: core/event.c. The immediate events and the timed ones are lists of events. The
--   comparison converts the 64-bit difference of two times to an int as the source does, so
--   the order is stated for times in a window of 2 ^ 31 seconds. Timers are the number of
--   seconds last set.
-- - Schedule: core/schedule.c, with poll_resource of core/retrieve.c. Blocks, stubs and
--   schedules are held in stores by address, so that the three lists of a schedule and the
--   hash table share blocks. The child modules follow the source: Insert (insert_block),
--   Active (insert_active), Update (update_schedule), Events (schedule_event, event_update,
--   remove_blocks and what they call). The lists are sequences of addresses: a block that a
--   list already has and that is linked again is outside of the model, which the condition
--   that the block is in none of the lists rules out. Random offsets are arguments, the hash
--   table is a map from the mRID, the responses that are posted and the requests that are made
--   are logged, and a null block that the code dereferences is none.
-- - Hash: core/hash.c, the table of sparse groups. A group is its slots and its bitmap;
--   Hash/Rank is about the parallel count of bit_rank. A probe of the loop of hash_find is one
--   unit of fuel, and the size of the table bounds them.
-- - Text: core/util.c. A C string is the list of its bytes before the terminating zero, and a
--   pointer into it is the list that begins there.
-- - Query: core/query.c, and the URI that get_seq of core/retrieve.c makes, or none where it
--   passes its 64 bytes. An int that is printed is given by its 32 bits, and printed with its
--   sign.
-- - Address: core/address.c. A write behind the buffer of sixteen bytes is a result of its
--   own. The port of an address has 16 bits, as in core/bsd.c.
-- - Uri: core/uri.c, with http_parse_uri of core/http_parse.c. The states of parse_uri are a
--   function each; the components are the texts that the source leaves in the buffer that it
--   overwrites.
-- - HttpParse: core/http_parse.c, the tokens and values of header fields and the target of a
--   request.
-- - Http: core/http.c, the messages that a connection writes, its two queues, in Http/Headers
--   the first line and the header lines of http_receive, and in Http/Buffer the buffer, from
--   which lines and the data of a message are read. The socket is given by the space that it
--   has at each write, and by what its reads give. A message that is made in an array of the
--   function is none where it passes the array; http_request and http_send have the size of
--   the caller's buffer as an argument. Reading the data of a message has 2048 rounds of fuel,
--   since each round adds a byte to a buffer of that size.
-- - Retrieve: core/retrieve.c and the database of core/resource.c: stubs in a store by
--   address, with the links from a requirement to its dependents. dep_complete and dep_reset
--   of Retrieve/Update follow these links; their fuel stands for the stack, and where the
--   links have no cycle a rank that falls along them bounds it. Retrieve/Requests has the
--   requests and the responses; what the dependency function, the URI parser and the tables of
--   types give are arguments there, and a null pointer that the code follows is none.
--   Requests, the calls of completion routines and the stubs that are freed are logged: what a
--   completion routine does, and what the free of a stub does to its memory, is not
--   represented. A name is a number, so that the array in which get_seq makes its URI is that
--   of Query only.
-- - Utf8: core/utf8.c, the decoder with its table, and the encoder.
-- - Sha256: core/sha256.c with the macros of core/pack.c. A 32-bit word is its number and the
--   wrap-around is written out; a negative padding is none.
-- - Exi: the bit stream of core/exi_output.c and core/exi_parse.c, as the bytes that are
--   complete and the one that is being written or read; an undefined shift is none. Ten groups
--   are enough fuel for a number of 64 bits.
-- - Exi, the child modules: BitField has output_bits and parse_bits, Binary the binary data,
--   Literal the string literals, Strings the tables of core/string_table.c with
--   exi_output_string and exi_parse_string, Header the header and the first event, and Values
--   the choice of a coding by the type of a value. The name of an element is a number, a table
--   has its strings in order, and what a parser function returns is an Outcome, in which a
--   call that C does not define has a place of its own. The byte behind the data, which
--   parse_bits may read, is an argument. The fuel of a literal is its length, since a
--   character takes a byte; three groups are enough for a character.
-- - Schema: core/schema.c, the elements of the tables in one list, in which the unions of the
--   source are one field. The fuel of the derivation is the length of the table and one more.
-- - SeObject: core/se_object.c with two entries of core/se_list.c. An object is the bytes of
--   its memory, and numbers are read from it with the lowest byte first; the offsets of the
--   keys are arguments.
-- - Xml: core/xml_token.c, and in Xml/Output and Xml/Hex the texts and hexadecimal data of
--   core/xml_output.c and core/xml_parse.c. The text that is decoded in place is a list of its
--   own. A round of the tokenizer takes a byte at least, but the one that begins a text, so
--   that two more than the length are enough rounds; the loops over a name, over a value and
--   over the attributes have the length of the text and one more.
-- - Security: core/security.c, the check digit and the identifiers of a certificate.
--
-- Not modelled: sockets, TLS, discovery, files and printing, which are input and output; the
-- generated tables of core/se_schema.c and the generators; the state machines that run over the
-- schema tables and the events behind the first, the loop of http_receive, and the DER client.
-- It is not shown of the hash table that the probes reach a free place, nor that an entry that
-- is put is found.
pub mod Address
pub mod Base
pub mod EventQueue
pub mod Exi
pub mod Hash
pub mod Http
pub mod HttpParse
pub mod LinkedList
pub mod Query
pub mod Queue
pub mod Retrieve
pub mod Schedule
pub mod Schema
pub mod SeObject
pub mod Security
pub mod Sha256
pub mod Text
pub mod Uri
pub mod Utf8
pub mod Xml
