-- ===== src/Platform/Http/Bounds.antt =====
-- How often and how long a call tries (libs/sl-platform/src/sl_platform/http.py, `request`).
