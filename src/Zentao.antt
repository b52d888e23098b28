-- ===== src/Zentao.antt =====
-- internal/service/zentao: the composite tools over the upstream server's read operations.
pub mod Values
pub mod Payload
pub mod Listing
pub mod Scope
pub mod Dates
pub mod Arguments
pub mod Runtime
pub mod PlainText
pub mod Bugs
pub mod Client
pub mod Insights
pub mod History
pub mod Similarity
pub mod Analysis
