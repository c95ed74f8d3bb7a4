-- ===== src/Model/Naming/Tests.antt =====
-- The names of concrete fields, and the theorem about them at an input.
use jorm.Base.{◌≡◌, refl, ascii}
use jorm.Model.Naming.{camel_to_snake}

user_id : camel_to_snake "UserID" ≡ "user_id"
unfolding camel_to_snake ascii
user_id = refl

http_server : camel_to_snake "HTTPServer" ≡ "http_server"
unfolding camel_to_snake ascii
http_server = refl
