-- ===== src/Runtime.antt =====
-- pkg/pgruntime: the Kubernetes face of the writer and the reader.
pub mod Convert
pub mod Relay
pub mod Watching
pub mod Resume
pub mod Errors
pub mod Client
pub mod Objects
pub mod Store
pub mod Gvk
pub mod FieldSelector
pub mod Listing
pub mod Informers
pub mod Manager
pub mod Tracer
