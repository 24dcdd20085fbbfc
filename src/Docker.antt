-- ===== src/Docker.antt =====
-- internal/backends/docker/runtime.go: the parts of the Docker backend that do not call Docker: the
-- build context and the Dockerfile of a template, the names of images, and the published ports.
pub mod Context
pub mod Dockerfile
pub mod Ports
