-- ===== src/Lws.antt =====
-- libwebsockets as the code sees it: the enumerations and structures that the code names or fills,
-- and the library's functions as an interface. The functions are not in the repository (a static
-- library and its headers are), so they are parameters.
pub mod Tokens
pub mod Reasons
pub mod Structs
pub mod Headers
pub mod Reply
