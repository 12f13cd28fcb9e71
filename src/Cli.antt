-- ===== src/Cli.antt =====
-- src/common/string_utils.cpp and src/parser/cli_parser.cpp: command lines.
pub mod Text
pub mod Parser
pub mod Tokens
pub mod Reading
pub mod Lines
pub mod Words
pub mod Requests
