-- ===== src/Deployment.antt =====
-- app/deployment: installing 3X-UI on a new server.
pub mod Progress
pub mod Service
