-- ===== src/Reconciler.antt =====
-- pkg/reconciler: the control plane's side, which keeps the notifications of the pods and a pool of
-- connections to them.
pub mod Nested
pub mod NotificationStore
pub mod CommandResults
pub mod ConnectionPool
pub mod PodAddresses
pub mod TlsDialer
