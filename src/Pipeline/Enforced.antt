-- ===== src/Pipeline/Enforced.antt =====
-- pipeline.py: what a request whose stages end unblocked went through.
use dlp_server.Base.Str.{Str}
use dlp_server.Base.Float.{Float}
use dlp_server.Base.Unicode.{Unicode}
use dlp_server.Transform.Carried.{Carried}
