-- ===== src/Packaging/Target.antt =====
-- The names of the targets (scripts/package.rs).
use safe_client_libs.Shared.{String}

abbrev pub linux_x86 : String
linux_x86 = "i686-unknown-linux-gnu"

abbrev pub linux_x64 : String
linux_x64 = "x86_64-unknown-linux-gnu"

abbrev pub osx_x86 : String
osx_x86 = "i686-apple-darwin"

abbrev pub osx_x64 : String
osx_x64 = "x86_64-apple-darwin"

abbrev pub windows_x86 : String
windows_x86 = "i686-pc-windows-gnu"

abbrev pub windows_x64 : String
windows_x64 = "x86_64-pc-windows-gnu"

abbrev pub ios_x64 : String
ios_x64 = "x86_64-apple-ios"

abbrev pub ios_arm64 : String
ios_arm64 = "aarch64-apple-ios"

abbrev pub ios_universal : String
ios_universal = "apple-ios"

abbrev pub android_x86 : String
android_x86 = "i686-linux-android"

abbrev pub android_x64 : String
android_x64 = "x86_64-linux-android"

abbrev pub android_armeabiv7a : String
android_armeabiv7a = "armv7-linux-androideabi"
