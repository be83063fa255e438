-- ===== src/Serving.antt =====
-- Serving of models: api/serving.py, api/routers/endpoints.py, and the deployment of a model from
-- api/routers/models.py.
pub mod Route
pub mod Health
pub mod Docker
pub mod Activation
pub mod Reconcile
pub mod Endpoints
