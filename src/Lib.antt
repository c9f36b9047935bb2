-- ===== src/Lib.antt =====
-- Verification of the Easy_Network library, a C++ library of TCP and UDP servers and clients, file
-- transmission and helpers for strings, threads and time.
--
-- The parts, their files here and the code that they model:
--
-- * Base holds the shared notation: Boolean tests and lists over the native numbers, bytes and machine
--   words, tables of bit masks, and `Run`, the outcome of code that may read out of range (`fault`) or
--   use up the fuel of the model (`stuck`).
-- * Net is the interface to the operating system: `send`, `recv` with MSG_WAITALL and the closing of a
--   socket are a record `Sockets`, an argument of everything that uses it. `IsStream` is what the manual
--   pages say of a connected pair of sockets. Net/Pipe is one concrete connection, for the runs.
-- * MessageLoop is the loop of the threads that receive from a TCP connection, and what it does on a stream.
-- * Tcp is `Default_TCP_Send` and `Default_TCP_Recv` of EN_Functions.cpp: the length of a message in
--   groups of seven bits, last group marked by a clear high bit, and then its bytes. Tcp/Prefix is about
--   the length, Tcp/Send and Tcp/Recv about the two functions, Tcp/RoundTrip about both, Tcp/Loop and
--   Tcp/Quiet are their lemmas.
-- * Udp is `Default_UDP_Send` and `Default_UDP_Recv` of EN_Functions.cpp: Udp/Framing is about what is sent,
--   Udp/Receive holds the receiving function over an interface to the system's datagrams, Udp/Delivers says
--   what it makes of the datagrams that wait, and Udp/Mailbox is a concrete socket for the runs.
-- * Calendar is the texts of dates and times of EN_Functions.cpp, with runs for tests.
-- * Text is `Split`, `SplitUpToTheFirst`, `FindAllOccurrences`, `Replace` and, in Text/Trim with runs for
--   tests, `TrimString` of EN_Functions.cpp.
--   Text/Parts describes a splitting without the code, and Text/Split, Text/First, Text/Find and
--   Text/Replace compare the functions with it; Text/Empty is about an empty splitter, and Text/Clean about
--   a splitter of one byte that the parts do not hold.
-- * Base64 is the pair of Base64 functions of EN_Functions.cpp with the table of EN_Functions.h.
-- * Base256 is the functions of EN_Functions.h between numbers and strings in base 256, for number types
--   of any size.
-- * Number is `IsCanBeDigit` and the overloads of `StringToInt`, and the decimal printing they undo.
-- * Uuid is `UUID4`, over any sequence of random draws.
-- * Transfer is EN_FileTransmissionStatus.cpp and `SendFile`, `RecvFile` and `ForwardFile` of
--   EN_Functions.cpp, which call Tcp, Text and Number. Transfer/Send, Transfer/Recv and Transfer/Forward
--   hold the three functions, Transfer/Chunks what stands on the wire, and Transfer/Recv/EndToEnd joins
--   the sending and the receiving side. The file system is a map from names to contents.
-- * CrossWalk is EN_ThreadCrossWalk.cpp as a step relation: a state is the members and the statement at
--   which each thread stands, and any thread that does not block may run its next statement.
-- * TcpServer is EN_TCP_Server.cpp: the members are the record `Server`, the virtual functions and the
--   system's calls the record `Host`, and each method that works between two calls of the crosswalk is
--   one function from state to state. TcpServer/Accepting is `Run`,
--   TcpServer/Accepting/Closing what is closed at its end, and TcpServer/Accepting/Ends its way there.
-- * TcpClient is EN_TCP_Client.cpp in the same way: TcpClient/Connection is about `Connect`, `Disconnect`
--   and `IsConnected`, TcpClient/Serve about the thread of `ServerHandler`. FileClient is
--   EN_FT_Client.cpp, two clients of that kind that are connected together.
-- * UdpServer is the buffers of EN_UDP_Server.cpp: UdpServer/Contents says what they hold as one list,
--   UdpServer/Fifo and UdpServer/Race interleave one handler thread with the receiving thread, and
--   UdpServer/Dispatch is the choice of a thread for a message. UdpServer/Life is `Run` from its socket to
--   its end, `Shutdown` and the socket options, where the handler threads run whole rounds on any
--   schedule; UdpServer/Life/Weights and UdpServer/Life/Keeps are about
--   what becomes of the messages.
-- * UdpClient is EN_UDP_Client.cpp: UdpClient/Serve is about the thread of `ServerHandler` and
--   UdpClient/Options about the socket options.
-- * Session is EN_TCP_Server_SC.h and EN_TCP_Server_SCUP.h, over the loop of MessageLoop: Session/Serve is about
--   the context, Session/Switch about a receiving function that stands in it.
-- * Http is experimental/EN_HTTP_Server.cpp: Http/Recv is about `HTTP_Recv`, Http/Lines and Http/Parse about
--   `ParseHTTPRequest`, which calls Text, and Http/Respond is `SendResponce`, which calls TcpServer.
--   Http/Handler is `ClientMessageHandler`, which uses all of them: Http/Handler/Request is about the request
--   line, Http/Handler/Head about the head of a response, Http/Handler/Serves about the response to a GET.
-- * Logger is EN_Logger.cpp, with the date and the time of a message as an argument; Logger/Writes is about
--   `DefaultLogFunc`, and `SetLogLevelsFile` has a run for a test.
-- * Status is `DefaultDownloadStatusFunction` of EN_Functions.cpp, Status/Text is about the numbers in its line.
-- * Subprocess is EN_Subprocess_Lin.cpp over an interface to the pipes: Subprocess/Output is about what the child
--   prints, Subprocess/Wait about `WaitData`.
-- * Threads is the setting for threads that share memory, with the rule for invariants and sums over all
--   threads. Barrier is `Wait` of EN_ThreadBarrier.cpp, ParallelFor is EN_ParallelFor.h and Gate is
--   EN_ThreadGate.cpp in it, the gate with the threads of EN_UDP_Server.cpp that close and open it.
--
-- Bounds and fuel. `size_t` and `uint64_t` have 64 bits and `int` 32, with the wrap-around written out
-- where the code can reach it. Loops that end by the code's own reading are recursion on the structure
-- or on an accessibility proof; the others have fuel. Ten rounds are enough for the length of a message,
-- since 64 bits are ten groups of seven. The file loops need one round more than the full chunks of
-- 4096 bytes, the loops over a text one round more than its length, the search for a free file name as
-- many as there are used names, `ClientHandler` and `ServerHandler` one more than the messages they
-- read, so does the loop of `Run` of the UDP server, `HTTP_Recv` one for each byte, and `SendResponce` one more than the full chunks of a file.
--
-- Not modelled: the log output of the other parts; delays and the clock, seen only as whether the timer
-- of the progress reports still sleeps; the code for Windows; `Cv.wait` returning without a
-- notification; and, so far, the interleaving of `EN_TCP_Server::Run` and of `Disconnect` of a client with
-- the threads that receive, `WaitFor` of the barrier, the gates EN_RecursiveThreadGate and
-- EN_TimeThreadGate, the pair of file transfer servers, the subprocesses of Windows, several
-- callers of one subprocess at the same time, and the Arduino client. The RAU
-- server and client are not built and do not compile. What `Default_UDP_Recv` receives is shown
-- for Windows; elsewhere it gives `recvfrom` the address of the pointer to the buffer. The threads in `Wait` of
-- the barrier wait with a mutex each, which C++ leaves undefined for several waiting threads at a time and
-- the model takes as defined. The files are those that can be opened for reading. ParallelFor runs over
-- numbers only, and each thread calls `Wait` of a barrier once, with the same amount. A program that
-- calls CarStartCrossRoad again before its CarStopCrossRoad is outside the model of the crosswalk.
pub mod Base
pub mod Net
pub mod Barrier
pub mod Base256
pub mod Base64
pub mod Calendar
pub mod CrossWalk
pub mod FileClient
pub mod Gate
pub mod Http
pub mod Logger
pub mod MessageLoop
pub mod Number
pub mod ParallelFor
pub mod Session
pub mod Status
pub mod Subprocess
pub mod Tcp
pub mod TcpClient
pub mod TcpServer
pub mod Text
pub mod Threads
pub mod Transfer
pub mod Udp
pub mod UdpClient
pub mod UdpServer
pub mod Uuid
