-- ===== src/Lib.antt =====
-- A model of FF_HTTP_LWS, an Unreal Engine plugin that serves HTTP with libwebsockets.
--
-- The program. An actor (AHTTP_Server_LWS) owns a thread object (FHTTP_Thread_LibWebSocket). The
-- thread creates a libwebsockets context with two mounts, a static one for files and a dynamic one
-- for the API URI, and serves it in a loop until it is stopped. libwebsockets calls Callback_HTTP on
-- that thread; it forwards requests outside the API to libwebsockets' own handler and hands the
-- others to the actor's delegates and Blueprint events, as a ULwsRequest (a request), a ULwsInfos (a
-- part of a body) or a URI. A handler reads the request with the getters of ULwsObject and answers
-- with SendResponse, which computes the size of a buffer, writes the headers into it and hands
-- headers and body to libwebsockets.
--
-- The files, with the sources under Source/FF_HTTP_LWS:
--   Base      shared vocabulary: tests and integers over native numbers, lists, C strings
--   Engine    the engine's functions, a parameter with its documented behaviour; TMap
--   Lws       libwebsockets: enumerations, constants and structures, from the headers under
--             Source/LibWebSocket/Win64/include; its functions, parameters with their documented
--             behaviour (Lws.Headers reads a request, Lws.Reply writes headers)
--   Enums     Public/FF_HTTP_LWS_Enums.h
--   Object    Public and Private/Objects/FF_HTTP_LWS_Object: GetMethod is get_method,
--             GetAllUrlParameters get_all_url_parameters and so on, an out parameter passed in and
--             returned; the theorems by getter in Method, Custom, Known, Url; Getter, the getters as
--             one family
--   Trace     the effects on the outside, in order
--   Request   Public and Private/Objects/FF_HTTP_LWS_Request, its tables in Codes; theorems
--             on the size (Payload, Short), the size over maps without an order (Order, Bags), the
--             buffer (Buffer, Room), the headers (Whole), what is sent (Sending), the tables
--             (Tables) and GetUri (Uri)
--   Info      Public and Private/Objects/FF_HTTP_LWS_Info
--   Thread    Public and Private/FF_HTTP_LWS_Thread, its fields in State and one function per
--             operation; Address, Mounts, Pool, Callback; Cached, the build with the engine's cache as
--             request pool; Race, where Run and Stop take turns statement by statement
--   Server    Public and Private/FF_HTTP_LWS_Server: the actor's pointer into a heap of thread
--             objects, where a use of a dead address is undefined behaviour; Protocol, the actor
--             against a machine of four phases; Changes, the three steps that calls are made of, with
--             Accounts, Leaks and Owner on any sequence of calls; Shutdown, the destructor of the
--             thread object with Kill(true), step by step, beside Run; World, the server at run
--             time: the calls of the actor and the Run of every thread object, in any
--             interleaving
--   Plugin    Public and Private/FF_HTTP_LWS.h, .cpp
--   EndToEnd  Callback_HTTP, events and SendResponse together: the size as an offset (Wire); the
--             parts of a body, from Callback_HTTP to GetBody (Body); the API URI, from the actor's
--             settings to Callback_HTTP (Routing); many callbacks of many connections
--             (Conversation); answers made from the URL parameters (Parameters)
--   Examples  an engine and a libwebsockets that keep their documentation, tests and examples
--
-- Integers. An int sum keeps its low 32 bits, its conversion to size_t extends the sign, and a
-- size_t passed as an int32 is read in two's complement; mountpoint_len is an unsigned char. Lengths
-- of texts are unbounded numbers. Loops are structural, or run a fixed number of rounds
-- (WSI_TOKEN_COUNT in GetAllKnownHeaders). The walk along the mounts has fuel 2, for two mounts.
--
-- Memory. What stands behind a converted text, and what a pointer of TCHAR_TO_UTF8 points to once the
-- statement that gave it is over, are parameters of which nothing is assumed; the names and values of
-- response headers, and the name in GetCustomHeader, are read through such pointers. End of SendResponse
-- is an offset that may be negative; nothing is assumed of libwebsockets then.
--
-- Taken as given: malloc and new succeed; lws_token_to_string returns text for each token; a header
-- function of libwebsockets succeeds if its line and some slack fit before End; the plugin is built for
-- Windows and with the map as request pool (USE_DISCARDABLE_CACHE is 0), but for Thread/Cached; memory is
-- sequentially consistent; Kill(true) has Stop run and then waits until Run has returned; a thread is
-- paused after its latest call of Suspend says so, and a paused thread gets no turns. For the actor the
-- destructor of the thread object is one step; in Server/Shutdown and Server/World it is taken apart. A
-- state of Server/World in which the game thread would use a dead address has no further call. Calls of
-- the actor come one at a time, from the game thread or from a handler inside lws_service.
--
-- Turns. A turn is one test, call or assignment. Inside lws_service Run is asleep: in a turn there the
-- call returns or does not, which is a parameter of the turn, and where a theorem needs that it returns in the end,
-- this is a hypothesis.
-- Of a call with a null pointer or a destroyed context, which Server/Shutdown/Faults reaches, nothing is
-- known: in the model Run stays inside it, and what a theorem says of the states behind holds as long as
-- the wrong use does no more than that.
--
-- Not modelled: what libwebsockets and pthreads do inside, the engine, the build files, the web
-- pages and assets, log entries that do not end the process, the engine's cache behind
-- USE_DISCARDABLE_CACHE, which is a parameter, and the constructor and Tick of the actor, which only call the
-- engine. Every other function of the plugin's own code is a definition here; what remains of the
-- repository's C and C++ are the headers of the two libraries.
pub mod Base
pub mod Lws
pub mod Engine
pub mod Enums
pub mod Object
pub mod Trace
pub mod Request
pub mod Info
pub mod Thread
pub mod Server
pub mod Plugin
pub mod EndToEnd
pub mod Examples
