-- ===== src/Lib.antt =====
-- Verification of the packet engine of violet's Android VPN, the C code in
-- android/app/src/main/cpp/tun2http, and of the proxy beside it. The engine reads IP packets from a tun
-- device, keeps a session for each TCP connection, UDP flow and pinged host, forwards its data over a
-- socket, for TCP through a proxy for the ports 80 and 443, and writes packets of its own making back
-- to the device. Java starts and stops the thread that it runs in. handle_ip gives a packet to the
-- handler of its protocol; the handlers share the list of sessions, the device and, for datagrams,
-- sendto and fork, which are the record World. The proxy is a process of its own, which forks for each
-- client and connects to a server straight or through another proxy.
--
-- Files and the code they model, all under android/app/src/main/cpp/tun2http:
--   Base.antt          shared tests, lists, bytes, fixed-width numbers and integers
--   Util/Checksum.antt calc_checksum of util.c
--   Util/Serial.antt   compare_u32 of util.c
--   Util/Text.antt     trim, strstate and hex of util.c
--   Util/Poll.antt     is_event, is_readable, is_writable and get_local_port of util.c
--   Jni.antt           tun2http.c: jni_init, jni_start, jni_stop, jni_done and protect_socket
--   Packet.antt        the IP headers and the write to the device, as in write_tcp of tcp.c;
--                      get_mtu and get_default_mss of ip.c
--   Tcp/Types.antt     struct segment and struct tcp_session of tun2http.h
--   Tcp/Windows.antt   get_send_window, get_receive_buffer, get_receive_window, get_tcp_timeout
--   Tcp/Packet.antt    write_tcp
--   Tcp/Write.antt     write_syn_ack, write_ack, write_data, write_fin_ack, write_rst
--   Tcp/Queue.antt     queue_tcp
--   Tcp/Options.antt   the option loop of handle_tcp
--   Tcp/Open.antt      open_tcp_socket
--   Tcp/Handle.antt    handle_tcp for a session that is known
--   Tcp/Register.antt  the headers, the new session and the reset of handle_tcp
--   Tcp/Incoming.antt  handle_tcp as a whole
--   Tcp/Check.antt     check_tcp_session and monitor_tcp_session
--   Tcp/Socket.antt    check_tcp_socket
--   Session/Types.antt struct icmp_session, udp_session and ng_session, and the search of the list
--   Session/Loop.antt  a turn of handle_events, its loop over the events, and clear, of session.c
--   Session/Thread.antt
--                      handle_events as a whole, the thread of the engine
--   Session/World.antt what the handlers of datagrams read and change
--   Session/Rounds.antt
--                      check_allowed, and the count and the check of handle_events, of session.c
--   Udp.antt           the timeout, check_udp_session, has_udp_session, block_udp and write_udp of udp.c
--   Udp/Handle.antt    handle_udp and open_udp_socket
--   Udp/Socket.antt    check_udp_socket
--   Udp/Resolve.antt   resolve_host_with_local_dns_server
--   Icmp.antt          the timeout and check_icmp_session of icmp.c
--   Icmp/Message.antt  the change of an ICMP message, and write_icmp
--   Icmp/Handle.antt   handle_icmp and open_icmp_socket
--   Icmp/Socket.antt   check_icmp_socket
--   Dhcp.antt          dhcp.c
--   Ip.antt            check_tun and handle_ip of ip.c
--   Ip/Parse.antt      what handle_ip reads from a packet
--   Ip/Uid.antt        get_uid and get_uid_sub, with char2nible and hex2bytes of util.c
--   Tls.antt           tls.c
--   Http.antt          find_data and patch_http_url of http.c
--   Http/Header.antt   get_header and next_header of http.c
--   Dns.antt           get_qname and get_dns_query of dns.c
--   Dns/Response.antt  parse_dns_response, with what it logs as its result
-- Under android/app/src/main/cpp, the proxy in C++ beside the engine:
--   Bypass/Socket.antt send_string and recv_string of socket.cpp
--   Bypass/Packet.antt modify_http_request of packet.cpp
--   Bypass/Proxy.antt  process_client, proxy_http and proxy_https of dpi-bypass.cpp, and parse_request
--                      of packet.cpp
--   Bypass/Resolve.antt
--                      dns.cpp, and find_in_hostlist of hostlist.cpp
--   Bypass/Remote.antt init_remote_server_socket of socket.cpp
--   Bypass/Service.antt
--                      init, acceptClient and deInit of dpi-bypass.cpp, and parse_hostlist
-- Proofs stand in child modules of the file they are about, and runs on concrete data in Scenarios.
--
-- State: a session is the record TcpSession, with the fields of the C struct; a field in network order
-- is the number that it denotes. The global list of sessions is a List. What a function does to the
-- device is a log of packets, the last one first. The forward queue has one owner, so it is a list.
-- System calls, the clock, rand and the answers of the device are arguments: the theorems hold for all
-- of them. Memory behind a pointer is a function from offsets to bytes, defined past the end as well,
-- so that reads out of bounds can be stated.
--
-- Machine integers: uint8_t, uint16_t and uint32_t wrap by a written %; the int32_t of compare_u32 and
-- the int of get_tcp_timeout are signed integers. char is unsigned and the machine little-endian, as
-- on the ARM ABIs.
--
-- Fuel: the two loops of tls.c advance by 3 and 4 bytes at least, so they get one round more than
-- there are bytes, and handle_tcp would not return if these ran out; the carry loop of calc_checksum gets two. The loop over the options of a SYN and
-- that of get_qname need not end: they return none when the rounds run out. get_dns_query, parse_dns_response, and the loop over the extension
-- headers of IPv6, which need not end either, get the rounds of the record Engine. The forwarding loop
-- of check_tcp_socket takes a segment off the queue in each round but the last, and find_data a byte,
-- so they are structural recursions.
--
-- Whether fork makes a child is a parameter. A child works on a copy of the session: what it is given is
-- logged, and its run is a function of its own. A uid is 32 bits, so that -1 is 2 ^ 32 - 1. The list's nodes are found by the search of
-- each handler. What is written behind the end of a buffer is not part of its contents.
--
-- The calls from Java and the threads of the engine are steps of a relation between states: pthread_kill
-- may answer anything for a thread that has ended, and a thread may change the sessions or end at any
-- time. get_header advances by two bytes in each round at least, so it gets one round more than there
-- are bytes.
--
-- The limit of the sessions that the thread is given is a number that is not negative.
--
-- Not modelled: logging, the lookups of classes and methods in the VM, epoll and the lock around the
-- loop of session.c, the socket options for broadcast and multicast, and get_ms of util.c, whose sum is
-- one of floats.
mod Base
pub mod Util
pub mod Tls
pub mod Dns
pub mod Dhcp
pub mod Ip
pub mod Http
pub mod Jni
pub mod Packet
pub mod Tcp
pub mod Udp
pub mod Icmp
pub mod Session
pub mod Bypass
mod Scenarios
