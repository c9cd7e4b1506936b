-- ===== src/Lib.antt =====
-- The own C code of sasy_server: packet filter, users' information, game packets, client and chat.
--
-- The servers are Lua services on skynet; their own C code is in game_room/luaclib-src. This library
-- models game_room/luaclib-src/lua-websocketnetpack.c, with which the gate service turns the data of
-- its sockets into packets. `lfilter` hands a socket's data to `filter_data_`, which completes an
-- entry of the table of unfinished packets or begins with a fresh header; what stands behind the
-- first packet of a buffer goes through `push_more` to a ring, from which `lpop` takes it.
--
-- The second part is game_room/luaclib-src/lua-sui.c: a block of memory that the services share, with
-- what is known of a user. `l_writeUserScore` changes the user's scores and, with them, the variation,
-- which `l_distillVariation` hands out and clears.
--
-- Files of the packet filter:
--   WebSocket/Mask       the loop of `decode_wsmask_data`
--   WebSocket/Wire       the frames of RFC 6455 as a client writes them: the independent description
--   WebSocket/Frame      `read_size` and `ntoh64`; Frame/Read: what they find in a frame,
--                        Frame/Bounds: where the header ends
--   WebSocket/Handshake  `websocket_strnpos`, `get_http_header`; Handshake/Search: the first blank line
--   WebSocket/Queue      the structs, `get_queue`, `expand_queue`, `push_data`, `lpop`, `lclear`;
--                        Queue/Ring: indices, Queue/Fifo: the abstract list of packets
--   WebSocket/Table      `hash_fd`, `find_uncomplete`, `save_uncomplete`, `close_uncomplete`;
--                        Table/Lookup: what is found, Table/Apart: the entries of other sockets
--   WebSocket/Scan       `decode_wsmask_data` and the scan of a buffer's front, which `push_more` and
--                        `filter_data_` share; Scan/Front: its result on a frame
--   WebSocket/More       `push_more`; More/Frames: on frames, More/Total: it ends
--   WebSocket/Filter     `filter_data_`, one function for each part of it; Filter/Header, Entry, Stream,
--                        Feed: a frame in chunks, Filter/Batch: several frames, Filter/Closing:
--                        a closing frame, Filter/Total: it ends
--   WebSocket/Pack       `lpack`
--   WebSocket/Gate       `lfilter` and `ltostring`: the messages of the socket thread
--   WebSocket/Valid      what holds of the queue between two calls; Valid/Links, Fills: the table and an
--                        entry, Valid/Kept: what a property needs to be kept by the data of a socket,
--                        Valid/More, Filter, Gate: every such property is, Valid/Calls: the queue,
--                        Valid/Apart: the packets of other sockets
--   WebSocket/Tests      concrete packets
-- Files of the users' information:
--   UserInfo/Members     `struct user_info` and its members' names and C types; the values of Lua
--   UserInfo/Attributes  `testGet`, `testSet`, `testAdd` and `l_initialize`, `l_getAttribute`,
--                        `l_setAttribute`, `l_addAttribute`, `l_new`, `l_reset`; Attributes/Access: reading
--                        after setting, Attributes/Others: what stays,
--                        Attributes/Life: when an object is in use, Attributes/Sums: additions
--   UserInfo/Score       `testWrite`, `l_writeUserScore`, `l_distillVariation`; Score/Ledger: scores and
--                        variation together, Score/History: from one distillation to the next
--   UserInfo/Heap        the blocks of `l_new` and `l_destroy`
--   UserInfo/Tests       concrete tables
-- The third part is game_room/luaclib-src/lua-pbcc.c, the packets that the game servers and their clients
-- exchange, and game_room/client, the program that speaks to the servers as a player's client does.
-- Files:
--   GamePacket           `l_packNetPBPacket`, `l_unpackNetPayload`; GamePacket/RoundTrip: both in turn
--   Client/Search        `string_table`, `string_search` of select.h; Search/Periods: borders of a text,
--                        Search/Table: the table, Search/First: the first occurrence, Search/Same: the
--                        search of the server finds the same
--   Client/Decimal       `itoa_parser`; Decimal/Digits, Reversal, Value: the text is read back
--   Client/Http          `http_build_post_head`, `get_http_response_body`; Http/Post, Http/Whole,
--                        Http/Header: what a response is, Http/Parts: whole, in part, with more behind it
--   Client/Http/Register the loop of `http_register_session` that reads; Http/Sessions: its responses
--   Client/Reads         what `read` returns
--   Client/Packets       the packets of the heart beat and of the login in httpclient.c; Packets/Sent: the
--                        server's side
--   Client/Send          the loops that write a packet; Send/Count: those that count down
--   Client/Telnet        `thread_telnet_socket`
--   Client/Threads       `_runflag`, the threads and `main`; Threads/Close: when the socket is closed,
--                        Threads/Shutdown: how the program ends
--   Client/HeartBeat     `write_heart_beat_data`, `write_gate_data`
--   Client/Writer        the rounds of `thread_gate_write`; Writer/Once: what they write
--   Client/Receive       the packets in `thread_gate_read`; Receive/Stream: the stream of bytes,
--                        Receive/Packed: what the server packs
--   Client/Answers       who reads a packet, and the two functions that read the server's messages
-- The fourth part is the chat, chat_room, with the packets that its server and its clients exchange, and
-- testsocket/server.c, a server that echoes what its clients send. Files:
--   Chat/Packet          `lsend_chat` of chat_room/lualib-src/lua-socket.c
--   Chat/Buffer          `struct socket_buffer`, `lpushbuffer`, `lreadall_chat`; Buffer/Pending: the bytes
--                        that wait, Buffer/Rounds: a round of the loop, Buffer/Messages: a message
--                        is read, Buffer/Split: part of a message,
--                        Buffer/Ends: the loop ends
--   Chat/Pool            the linked nodes of all sockets and the free ones; Pool/Segments: lists of nodes,
--                        Pool/Represents: what a heap stands for, Pool/Append: `lpushbuffer`,
--                        Pool/Return: `return_free_node`, Pool/Refines: sequences of both
--   Chat/Reading         `pop_lstring`, `lpopbuffer`, `lclearbuffer`, `lreadall`, `check_sep`, `lreadline`
--                        and `lheader`; Reading/Pops: bytes from the front, Reading/Lines: the first
--                        separator, Reading/Calls: each call, Reading/Fifo: sequences of calls
--   Chat/Parse           chat_room/lualib-src/lua-parsedata.c
--   Chat/Stream          `thread_socket` of chat_room/client/client.c; Stream/Order: the messages
--                        of a buffer, Stream/Reads: those of all reads
--   Chat/Connect         `socket_connect` of chat_room/client/select.h; Connect/Rounds: how its loop ends
--   Chat/Greet           what `main` of chat_room/client/client.c sends; Greet/Served: a server reads it
--   Chat/Session         `main` and `thread_socket` in any order of their turns; Session/Greets: what is
--                        sent, Session/Ends: the end of the connection
--   Poll                 testsocket/server.c; Poll/Count: slots and sockets, Poll/Echo: what is written back
--   Chat/Tests, Chat/ClientTests, Poll/Tests, Client/Tests, GamePacket/Tests  concrete texts and packets
--   Base                 numbers, lists, words, texts and outcomes
--
-- State: `Slot` is the first argument of the Lua functions, nil or the `struct queue`. Every
-- operation takes it and returns it. A block of memory is the list of its bytes, and an array is a
-- function of its index. A pointer into the socket's buffer is the list of the bytes from there on.
-- `Outcome` has the result, `fault` where the C code reads or writes outside a block (or copies a
-- negative count), and `spent` where the fuel of a loop is used up. The fuel of `push_more` is one more
-- than the length of the buffer: a round takes at least two bytes away, so that it is always enough.
--
-- The host is little-endian with 32-bit `int`, as the servers' are; a 64-bit length is cut down to an
-- `int` as the code does it. `skynet_malloc` does not fail. Where `push_more` or `filter_data_` hand
-- the size of the socket's buffer on, it is the length of the list.
--
-- A member of `struct user_info` is found by its name, which is also the attribute's name in Lua: the
-- ladders of `strcmp` are lists of names. A number is kept as the bit pattern of its C type, and a Lua
-- integer as its 64-bit pattern; signed sums wrap. A Lua table is the sequence of its pairs in the order
-- of `lua_next`, with strings as keys. Lua's conversions are a parameter, the record `Lua`, with what
-- they do to a value of the right type; what they make of other values is left open. `Call` tells a
-- result from an error that Lua catches and from a crash (a read or a write outside a block, a failed assertion).
--
-- Not modelled: the Lua stack beyond the results, `lgetms`,
-- printing, and the libraries of other projects in the repository (skynet, pbc, lua-cjson, lua-arc4random).
-- Of the game's client, connecting to a server is not modelled; the threads are, by any order of their
-- turns and of those of `main`: a turn reads one flag, or starts a thread with its flag, or is a
-- thread's end. The library of protocol buffers is a parameter: the record `Messages` for what the
-- client writes, and what the memory of a message holds when it has been freed, `Pbc` for what it reads. A list of `Read` is what the calls of `read` return in
-- turn. The fuel of `string_table` is twice the length and that of `string_search` one more than
-- twice the length: a round makes one of two numbers larger. The fuel of `lreadall_chat` is the
-- number of nodes and 12 more, and that of the chat client's loop is one more than the bytes of its
-- buffer, or any number where it never ends.
-- Of chat_room/lualib-src/lua-socket.c, the edition of skynet's file to which the chat adds its
-- functions, the buffer of a socket is modelled, as the list of its blocks, with every call on it. The nodes
-- of all sockets are linked in one heap, with the free ones of the pool: an address is a number, and the
-- nodes of a new chunk stand behind all others. `lfreepool` and the calls that hand something to skynet
-- are left out. In the chat client the
-- results of the system's calls are parameters, and the threads go by single steps: the test of the flag,
-- the `write`, the `read`, the setting of the flag and the `close`; a `select` that does what its manual says is a
-- hypothesis, and a `write` to the descriptor that the thread has closed fails. testsocket/client.c is
-- not modelled: its first packet has a number that it never wrote.
pub mod Base
pub mod WebSocket
pub mod UserInfo
pub mod GamePacket
pub mod Client
pub mod Chat
pub mod Poll
