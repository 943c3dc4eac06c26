-- ===== src/Lib.antt =====
-- A chat server in C++: an HTTP library on the network library muduo, and the application on it.
--
-- The parts. A connection's bytes go to a parser (HttpServer/include/http/HttpContext.h and
-- HttpServer/src/http/HttpContext.cpp), which fills a request. The server (HttpServer/src/http/HttpServer.cpp)
-- runs the middlewares before the request, hands it to the handler that the router chooses, runs the
-- middlewares after it and sends the response. Handlers find the visitor's session by a cookie, and the
-- application keeps users, conversations and a MySQL database behind a pool of connections.
--
-- Which file models which part:
--   Common       strings as lists of bytes, std::map as association lists, std::stoi, shared lemmas
--   Http.Request, Http.Context, Http.Response, Http.Buffer
--                HttpRequest, HttpContext, HttpResponse in HttpServer/src/http; the buffer of muduo is an
--                interface with its laws, which a list of bytes implements
--   Router       HttpServer/src/router/Router.cpp; the regular expressions are a parameter
--   Middleware   HttpServer/src/middleware: the chain, CORS and the QPS counter; the clock is an argument
--   Server       HttpServer/src/http/HttpServer.cpp: onMessage, onRequest, handleRequest; the handlers are
--                a parameter, what is sent is a list of effects
--   Session      HttpServer/src/session: sessions as objects of a heap, pointers as places in it; the
--                operations of one thread at a time, since only the storage's map has a lock
--   Pool         HttpServer/src/utils/db/DbConnectionPool.cpp: each critical section of getConnection
--                and the deleter is a step; init, whose lock is commented out, is over before those steps
--   Chat.Sql     escapeString and pushMessageToMysql of AIApps/ChatServer/src/AIUtil/AIHelper.cpp
--   Chat.Sse     AIApps/ChatServer/src/handlers/ChatStreamHandler.cpp and executeCurlStream
--   Chat.Accounts, Chat.Register
--                the handlers of login, logout and registration; JSON and MySQL are parameters
--   Chat.History readDataFromMySQL and ensureUserDataLoaded of AIApps/ChatServer/src/ChatServer.cpp
--   Chat.Deletion
--                the handler that deletes a conversation
--   Chat.Json    what the application uses of the JSON library, an interface with its laws
--   Chat.Strategy, Chat.Config
--                AIStrategy.cpp, AIFactory.cpp and AIConfig.cpp of AIApps/ChatServer/src/AIUtil; the
--                environment, regular expressions and the order of an unordered map are parameters
--   Chat.Helper, Chat.Curl, Chat.Conversation
--                addMessage, executeCurl and chat of AIHelper.cpp; a transfer of libcurl and a tool's run
--                are parameters, which may throw
--   Chat.Utf8, Chat.Handlers
--                the handlers that list, rename, show, send and stream; a helper is the
--                messages of its session, a statement is its text and the values bound to it
--   Chat.Queue   MQManager.cpp: the round robin of channels and the loop of a worker
--   Examples     the theorems at concrete inputs
--
-- The correspondence. Functions keep the source's names in snake case, fields lose their underscore. An
-- exception is a constructor of a result type, a failed assertion is `aborted`, as in a build with assertions
-- (CMakeLists.txt defines NDEBUG for Release, where HttpRequest.cpp overwrites the method instead), a state that C++ changes is
-- an argument and a result. Integers are natural numbers where the source's cannot be negative; the request
-- counter and the queue's wrap at 2 ^ 64 and std::stoi has the range of a 32-bit int.
--
-- Fuel. The loop of parseRequest is on fuel, the bytes in the buffer and two more being enough from
-- every state but kGotAll. All other loops are structural.
--
-- Not modelled: SSL, the network library and its threads, the MySQL connector, libcurl, RabbitMQ, the JSON
-- library and its refusal of text that is not UTF-8, the pages, and, of the application, the tool registry and
-- the simulated stream, which reads freed memory. Two requests that use one helper at the same time are
-- not modelled either: the source has no lock there. Logging is left out everywhere.
pub mod Common
pub mod Http
pub mod Middleware
pub mod Router
pub mod Server
pub mod Session
pub mod Pool
pub mod Chat
pub mod Examples
