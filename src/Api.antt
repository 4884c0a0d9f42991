-- ===== src/Api.antt =====
-- The API group core.platform-mesh.io/v1alpha1 (api/v1alpha1).
pub mod Account
pub mod AccountInfo
pub mod Webhook
pub mod DeepCopy
pub mod Scheme
