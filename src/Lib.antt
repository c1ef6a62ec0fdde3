-- ===== src/Lib.antt =====
-- Caligo Engine: a small internet radio station in C. Its HTTP server serves pages, programs and
-- proxied connections by a table of routes; a bridge turns the WebSocket connections that the HTTP
-- server proxies to it into plain TCP connections; an XMPP daemon, the bridge's target, keeps the
-- chat rooms; an HTTPS server does what the HTTP server does over OpenSSL; a radio server sends one
-- stream to its listeners; and CGI programs, which the servers start, serve the pages.
--
-- Base: tests, lists and the C strings of string.h, as lists of byte values without the NUL.
-- Bridge models bridge.c. Bridge/Sha1 and Bridge/Base64 are sha1 and base64_encode,
--   Bridge/Handshake the answer of handle_handshake, Bridge/Frame the loop of
--   forward_client_to_target over the frames of one read and the frame of forward_target_to_client,
--   Bridge/Session the session table, the rest of these functions, and the event loop of main. A
--   step takes what epoll_wait, recv, socket and connect return.
-- Http models http/request_handler.c. Http/Base64 is base64_decode, Http/Routes the routing table,
--   load_config_file and the choice of handle_work, Http/Work the headers, check_authentication and
--   handle_work up to the call that serves the request, Http/Serve the file that is opened and
--   handle_proxy_request_async, Http/Files and Http/Static the ranges, the header and the body of
--   serve_static_file, Http/Cgi handle_cgi_request, and Http/Worker handle_work as a whole. Of
--   http/server.c, Http/TaskQueue is the queue, a linked list on a heap, and Http/Loop the event
--   loop with cleanup_client, on a heap of clients where peers point at each other.
-- Https models the write buffer of https/server.c and https/request_handler.c, Https/Outbox:
--   ssl_send_response, flush_pending_write, the branch of the event loop for a writable socket,
--   and the sending of a file through them. Https/Events is the handshake, the branches of the
--   event loop for a readable client, and the end of handle_work, with what epoll watches the
--   client for. Https/Clients is the accept loop, cleanup_client and the queue. Https/Tunnel is
--   the forwarding from an upstream to a browser, which stops reading while bytes wait.
--   Https/Requests is the rest of https/request_handler.c: what it repeats of the HTTP server is
--   named after the model of that, and what it does otherwise, handle_work to its end included,
--   is a definition of its own. What OpenSSL answers is an argument.
-- Radio models radio_server.c: the ring between the broadcaster and the senders (Radio/Ring),
--   what a round sends (Radio/Chunks), the choice of the sender thread (Radio/Turns), the reading
--   of the audio file (Radio/Broadcaster), and main beside the threads (Radio/Main).
-- Cgi/RequestSong models cgi_bin/request_song.c: the query of the form, the command line made of
--   it, and the chunks in which its output goes out. Cgi/Accounts models cgi_bin/auth_app.c and
--   Cgi/Playlists cgi_bin/playlist_manager.c, which share the users' file, over the interface of
--   the Jansson library in Cgi/Jansson, whose laws are what its manual says of the calls.
--   Cgi/ChatRooms is cgi_bin/get_chat_rooms.c and Cgi/Mixtape cgi_bin/mixtape_app.c, over the
--   same interface.
-- Xmppd models xmppd.c. Xmppd/Rooms is the room table and its file, Xmppd/Xml the scanning of
--   attributes and bodies, Xmppd/Stanza the texts that are sent, Xmppd/Daemon the client table, the
--   handling of a message and the event loop of main. A step gives the new state and the texts sent,
--   in order.
-- Examples runs the models on fixed inputs, among them the key of RFC 6455.
--
-- Words of 32 and 64 bits wrap by an explicit remainder. A loop over bytes runs on fuel that is
-- the length of what it reads: each round takes at least one byte, and the one loop that may not,
-- over WebSocket frames, runs out of fuel where it never ends, which is `endless` in
-- Bridge/Session. Out-of-bounds accesses are results of their own: `overrun` of a frame,
-- `past_table` of the bridge's sessions, `out_of_bounds` of the decoder, `none` of a text in
-- xmppd.c and of a word in the configuration file; a use of freed memory is `dangling` in
-- Bridge/Session, `none` in Http/Loop and `used_freed` in Https/Events. An array that the code
-- reads before it sets it is an argument.
--
-- Taken as given: malloc succeeds and returns a free address, but for main of the radio server,
-- where its failure is an answer; and the bytes that recv peeks at are those it returns next. In
-- the bridge and the daemon send takes all it is given; elsewhere its answers are arguments.
-- Printed messages are left out. The keys and texts given to Jansson are valid UTF-8, and a file
-- that is there can be opened for reading. Messages of SHA-1 are shorter than 2 ^ 38 bytes.
-- Not modelled: the setup of OpenSSL, of sockets and of threads, the pace of the radio stream,
-- the programs that are started, the page in public_html, and the steps of other threads between
-- those of a call. A number of a request that does not fit its C type is left out.
pub mod Base
pub mod Bridge
pub mod Http
pub mod Https
pub mod Cgi
pub mod Radio
pub mod Xmppd
pub mod Examples
