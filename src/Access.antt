-- ===== src/Access.antt =====
-- Who may see what: server/django/core/middleware.py (`SiteContextMiddleware`),
-- server/django/core/permissions.py and server/django/frontend/context_processors.py.
pub mod Middleware
pub mod Permissions
pub mod Context
pub mod Isolation
pub mod Navigation
