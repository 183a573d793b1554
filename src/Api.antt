-- ===== src/Api.antt =====
-- src/api: the data and the handlers of the deprecated routes /encrypt and /decrypt. An error is a
-- status with the text of its body.
pub mod Models
pub mod Handlers
pub mod Limits
pub mod RoundTrip
pub mod Statuses
pub mod Dto
pub mod V1
