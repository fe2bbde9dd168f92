-- ===== src/Control.antt =====
-- app/workers/ctrl: the HTTP interface that controls the connected nodes.
--
-- The router and the extractors of axum call the handlers with what they read from a request; a
-- handler is a function of that. The headers that axum adds by itself are left out.
pub mod Answers
pub mod Nodes
pub mod Proxy
pub mod UploadLaws
pub mod DownloadLaws
pub mod Routes
pub mod AnswerLaws
pub mod NodeLaws
pub mod ProxyLaws
