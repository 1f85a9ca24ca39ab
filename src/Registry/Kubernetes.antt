-- ===== src/Registry/Kubernetes.antt =====
-- The Kubernetes registry (registry/kubernetes).
pub mod Pods
pub mod Annotations
pub mod Watch
pub mod Changes
pub mod Events
mod Examples
