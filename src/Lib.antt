-- ===== src/Lib.antt =====
-- fast-firebird is a Firebird client for Node in TypeScript. This library models the parts of
-- packages/core/src that keep state or decide something, and proves what makes them correct.
--
-- The parts, from the socket up. The transport (packages/core/src/protocol/transport.ts) decrypts
-- what the socket delivers, queues the chunks and serves reads of an exact number of bytes; its
-- filter is RC4 (protocol/crypt/arc4.ts). The wire connection (protocol/wire.ts) writes packets with
-- the XDR writer (protocol/xdr.ts) and sends them in one flush. Statements prepared on a connection
-- are kept by the statement cache (api/statement-cache.ts), which frees the handles that it drops
-- with deferred packets. Blobs that come ahead of the rows are kept by the inline blob cache
-- (api/inline-cache.ts), framed in segments (protocol/blob.ts). Transactions start with a parameter
-- buffer (protocol/transaction.ts, protocol/buffers.ts). SQL with @name markers is rewritten to
-- positional parameters (api/named-params.ts), fetches are sized by protocol/fetch-plan.ts, the answers to
-- info requests are read by protocol/info.ts, and
-- scripts are scanned for quotes and comments and cut in statements and commands of the driver
-- (script/scanner.ts, script/parser.ts). Rows and parameters go as packed messages
-- (protocol/msgcodec.ts), the decimal floats in them by types/decfloat.ts. Blobs are read and
-- written with several requests in flight (protocol/blob.ts). The pool (pool/pool.ts) lends connections.
--
-- Files, and how they correspond to the code:
--   Base: lists, bytes, the native numbers; Base.Keys is JavaScript's Map as the list of its entries
--     in insertion order (get, delete, set_entry). A Buffer is a list of bytes, a string a list of
--     UTF-16 code units. Option is a call that may throw.
--   Wire.Xdr (XdrWriter, XdrReader): the writer's memory is a list, fresh memory an unknown function
--     of its size. Items is what is written as one type, RoundTrip reads it back.
--   Wire.Connection: the packet under construction, the packets sent, the count of deferred frees.
--   Wire.Responses: readOp, readResponse, parseResponseBody, readStatusVector over the bytes that
--     will arrive; Encoding is what the server writes.
--   Wire.Cipher: what the transport asks of a filter, which Wire.Arc4 (Rc4, Arc4Filter) fills.
--   Wire.Transport: ByteQueue (push, take_bytes), and on_data, read, socket_write, write_packet,
--     install_crypt over any cipher. The socket's events are a list, an await takes the next.
--   Cache.Statements (StatementCache): lookup, put, remove, clear, on the wire connection.
--   Blob.Segments (parseSegmentFrames), Blob.InlineCache (InlineBlobCache).
--   Blob.Channel: the requests of blob.ts over a connection as its requests and the responses to come,
--     those to deferred requests among them; Reads (readBlob, readBlobWindow), Writes (writeBlob),
--     Streams (writeBlobStream), Many (readBlobs). Drained and InStep
--     compare requests with the replies taken, Reading, Chunks and Streams.Delivered are about the bytes.
--   Rows (BlrBuilder, buildOutputBlr), Rows.Reading (makeColumnReader, readRow), Rows.Params
--     (encodeParams): Bits is the null bitmap, Own
--     and Declared are the parameters' own types, Pieces and Columns one value and one row.
--   Decimal (encodeDecFloat, decodeDecFloat): Declets, Packing, Fields, and Writing for the text.
--   Params (ParamBuffer), Params.Tpb (buildTpb, mergeTransactionOptions); Params.Reading reads the
--     buffer by the server's grammar.
--   Fetch (estimateRowWidth, nextFetchCount), with Fetch.Ramp for the sizes of a long scan.
--   Info (ClumpletReader, parseRecordCounts), Info.Describe (parseDescribe).
--   Pool (Pool): each await ends a step, and Pool.Moves has the events that resume the suspended
--     calls, in any order. A connection is its number in the order of creation.
--   Script.Scanner (regionAt), Script.Comments (commentRanges, stripComments, lineColAt),
--   Script.NamedParams (rewriteNamedParams, bindNamedParams, normalizeParams); its Markers says where
--     the markers of SQL are.
--   Script.Words (the words of a statement), Script.Commands (classifyClientCommand, parseSetTransaction),
--   Script.Parser (parseScript): Cursors and Rounds are its scan, Positions where statements stand.
--
-- Fuel: the scanners' loops run on as many rounds as the text has characters, since each round
-- moves on; the writer's doubling on as many as the size asked for; the eviction loop on as many as
-- there are entries; the frames of a blob, the entries of a status vector and the search for the
-- next operation on as many as there are bytes; the script parser's rounds and the words on as many
-- as there are characters; the chunks of a blob on as many as there are bytes, since each takes
-- one. That these are enough is part of the theorems. The loops that take replies recurse over the
-- replies that will come.
--
-- Not modelled: the socket itself, timers (a timeout is an event), zlib compression, the message
-- tables, text encodings (arguments of the definitions), the session and its transactions, the
-- requests of statements and batches, the prefetcher of blobs,
-- authentication, services, events, time zones, the script runner, the connection options, the
-- expansion of *, and the packages beside core.
pub mod Base
pub mod Blob
pub mod Params
pub mod Wire
pub mod Cache
pub mod Fetch
pub mod Info
pub mod Pool
pub mod Script
pub mod Rows
pub mod Decimal
